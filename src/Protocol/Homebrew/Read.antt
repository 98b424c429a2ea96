-- ===== src/Protocol/Homebrew/Read.antt =====
-- src/dmr/protocol/homebrew.c: what a received frame does.
use dmrlib.Common.{
  ℕ, Bool, ◌&&◌, Option, none, some, List, [], ◌∷◌, length, get_or, take, drop, ◌==◌, ltb,
  if◌then◌else◌, bit_and, ◌>>>◌,
}
use dmrlib.Error.{Status, done, failed, invalid_argument, out_of_memory}
use dmrlib.Raw.{Memory}
use dmrlib.Packet.{ParsedPacket, data_type_voice_sync}
use dmrlib.Queue.Packet.{blank}
use dmrlib.Protocol.Homebrew.{
  AuthState, auth_none, auth_init, auth_config, auth_done, Homebrew, Wire, Reply,
  homebrew_send_config, homebrew_send_key,
}

-- "ACK", "NAK" and "PONG".
abbrev pub ack : List ℕ
ack = 0x41 ∷ 0x43 ∷ 0x4b ∷ []

abbrev pub nak : List ℕ
nak = 0x4e ∷ 0x41 ∷ 0x4b ∷ []

abbrev pub pong : List ℕ
pong = 0x50 ∷ 0x4f ∷ 0x4e ∷ 0x47 ∷ []

abbrev pub data_type_voice : ℕ
data_type_voice = 0xf1

-- The `switch` on two bits of the slot information; the value 3 sets nothing.
unfoldable pub by_slot_info : ℕ → ParsedPacket → ParsedPacket
by_slot_info info parsed =
    let kind = bit_and (info >>> 2) 0x03 in
    if kind == 0
    then record parsed { data_type = data_type_voice; voice_frame = info >>> 4 }
    else (if kind == 1
        then record parsed { data_type = data_type_voice_sync }
        else (if kind == 2 then record parsed { data_type = info >>> 4 } else parsed))

-- What `socket_recv` gives.
pub data Received : Type 0 where
  recv_error : Received
  received : List ℕ → Received

-- The status, the packet that is stored through the pointer, and the link.
abbrev pub Outcome : Type 0
Outcome = Option (Status × Option ParsedPacket × Homebrew)

unfoldable pub no_packet : Reply → Outcome
no_packet none = none
no_packet (some (status, hb)) = some (status, none, hb)

module _ (memory : Memory) (wire : Wire) (given : Bool) where
  unfoldable pub parsed_frame : List ℕ → ParsedPacket
  parsed_frame buf =
      let head = record blank {
        sequence = get_or buf 4 0;
        src_id = wire.uint24 buf 5;
        dst_id = wire.uint24 buf 8;
        repeater_id = wire.uint32 buf 11;
        ts = bit_and (get_or buf 15 0) 0x01;
        flco = bit_and (get_or buf 15 0) 0x02 >>> 1;
      } in
      record (by_slot_info (get_or buf 15 0) head) {
        stream_id = wire.uint32 buf 16;
        packet = memory.byte_copy head.packet 0 (drop 20 buf) 33;
      }

  unfoldable pub homebrew_parse_dmrd : List ℕ → Status × Option ParsedPacket
  homebrew_parse_dmrd buf =
      if length buf == 53
      then (if given then (done, some (parsed_frame buf)) else (out_of_memory, none))
      else (invalid_argument, none)

  -- An ACK of fourteen bytes; `now` is the time, which both calls of the clock give.
  unfoldable pub on_ack : ℕ → AuthState → Homebrew → Reply
  on_ack now auth_none hb = some (done, hb)
  on_ack now auth_init hb = homebrew_send_config memory wire given hb
  on_ack now auth_config hb =
      some (done, record hb { last_ping = now; last_pong = now; state = auth_done })
  on_ack now _ hb = some (done, hb)

  unfoldable pub on_nonce : AuthState → List ℕ → Homebrew → Reply
  on_nonce auth_none buf hb =
      homebrew_send_key memory wire given
        (record hb { nonce = memory.byte_copy hb.nonce 0 (drop 14 buf) 8 })
  on_nonce _ buf hb = some (done, hb)

  unfoldable pub on_master : ℕ → List ℕ → Homebrew → Reply
  on_master now buf hb =
      if length buf == 14
      then (if wire.equal_at buf 3 ack
          then on_ack now hb.state hb
          else (if wire.equal_at buf 3 nak
              then some (failed, record hb { state = auth_none })
              else some (done, hb)))
      else (if length buf == 22
          then (if wire.equal_at buf 3 ack then on_nonce hb.state buf hb else some (done, hb))
          else some (done, hb))

  unfoldable pub on_repeater : ℕ → List ℕ → Homebrew → Homebrew
  on_repeater now buf hb =
      if (length buf == 15) && wire.equal_at buf 3 pong then record hb { last_pong = now } else hb

  unfoldable pub on_data : Bool → List ℕ → Homebrew → Outcome
  on_data wanted buf hb =
      if (length buf == 53) && wanted
      then (let (status, parsed) = homebrew_parse_dmrd buf in some (status, parsed, hb))
      else some (done, none, hb)

  -- The `switch` on the first byte, 'D', 'M' or 'R'.
  unfoldable pub on_frame : ℕ → Bool → List ℕ → Homebrew → Outcome
  on_frame now wanted buf hb =
      if get_or buf 0 0 == 0x44
      then on_data wanted buf hb
      else (if get_or buf 0 0 == 0x4d
          then no_packet (on_master now buf hb)
          else (if get_or buf 0 0 == 0x52
              then some (done, none, on_repeater now buf hb)
              else some (done, none, hb)))

  -- `wanted` is whether the caller gives a pointer for a packet; the socket gives at most the 128
  -- bytes of the buffer.
  unfoldable pub homebrew_read : ℕ → Bool → Received → Homebrew → Outcome
  homebrew_read now wanted recv_error hb =
      if given then some (failed, none, hb) else some (out_of_memory, none, hb)
  homebrew_read now wanted (received bytes) hb =
      let buf = take 128 bytes in
      if given
      then (if ltb (length buf) 14 then some (done, none, hb) else on_frame now wanted buf hb)
      else some (out_of_memory, none, hb)
