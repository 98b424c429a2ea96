-- ===== src/Protocol/Homebrew/Dmrd/RoundTrip.antt =====
-- src/dmr/protocol/homebrew.c: a packet that is sent is parsed again.
use dmrlib.Common.{
  ℕ, ◌<◌, ◌≡◌, refl, ap, ◌∙◌, arith, true, some, List, ◌∷◌, length, get_or, replicate, take,
  Bool-cases, inl, inr, ◌==◌, bit_and, ◌>>>◌,
}
use dmrlib.Common.Bytes.{length-take}
use dmrlib.Error.{done}
use dmrlib.Raw.{Memory, raw_new, round_up}
use dmrlib.Raw.Append.{little_endian}
use dmrlib.Raw.Copy.{byte_copy_same}
use dmrlib.Packet.{ParsedPacket}
use dmrlib.Queue.Packet.{blank}
use dmrlib.Protocol.Homebrew.{
  Homebrew, Answer, Wire, send_loop, after_send, homebrew_send_raw, with_raw,
}
use dmrlib.Common.Bytes.{take_all}
use dmrlib.Protocol.Homebrew.Read.{by_slot_info, parsed_frame, homebrew_parse_dmrd}
use dmrlib.Protocol.Homebrew.Dmrd.{slot_info, homebrew_send}
use dmrlib.Protocol.Homebrew.Dmrd.Layout.{frame_bytes, contents-dmrd_frame}
use dmrlib.Protocol.Homebrew.Dmrd.Slot.{slot_of, carried, IsCarried, by_slot_info-slot_info}

-- The fields of a packet that the frame carries and that are parsed without the integers of
-- common/byte.h.
pub record IsSame (hb : Homebrew) (parsed q : ParsedPacket) : Type 0 where
  pub same_sequence : q.sequence ≡ parsed.sequence
  pub same_slot : q.ts ≡ slot_of hb parsed
  pub same_call : q.flco ≡ parsed.flco
  pub same_type : q.data_type ≡ carried parsed.data_type
  pub same_packet : q.packet ≡ parsed.packet

-- The switch on the slot information leaves the other fields.
by_slot_info_keeps :
    (info : ℕ) (head : ParsedPacket)
    → ((by_slot_info info head).sequence ≡ head.sequence)
      × ((by_slot_info info head).ts ≡ head.ts)
      × ((by_slot_info info head).flco ≡ head.flco)
unfolding by_slot_info
by_slot_info_keeps info head = elim (Bool-cases (bit_and (info >>> 2) 0x03 == 0)) [
  | inl voice ↦ rw voice (refl, refl, refl)
  | inr other ↦ rw other (elim (Bool-cases (bit_and (info >>> 2) 0x03 == 1)) [
    | inl sync ↦ rw sync (refl, refl, refl)
    | inr rest ↦ rw rest (elim (Bool-cases (bit_and (info >>> 2) 0x03 == 2)) [
      | inl payload ↦ rw payload (refl, refl, refl)
      | inr unknown ↦ rw unknown (refl, refl, refl)
    ])
  ])
]

module _ (memory : Memory) (wire : Wire) where
  -- The fields that are assigned before the switch.
  head_of : List ℕ → ParsedPacket
  head_of buf = record blank {
    sequence = get_or buf 4 0;
    src_id = wire.uint24 buf 5;
    dst_id = wire.uint24 buf 8;
    repeater_id = wire.uint32 buf 11;
    ts = bit_and (get_or buf 15 0) 0x01;
    flco = bit_and (get_or buf 15 0) 0x02 >>> 1;
  }

  parsed_frame-IsSame :
      (hb : Homebrew) (parsed : ParsedPacket)
      → IsCarried parsed
      → parsed.sequence < 256
      → length parsed.packet ≡ 33
      → IsSame hb parsed (parsed_frame memory wire true (frame_bytes (slot_info hb parsed) parsed))
  unfolding parsed_frame frame_bytes little_endian head_of by_slot_info
  parsed_frame-IsSame hb parsed good small size =
      let info = slot_info hb parsed in
      let head = head_of (frame_bytes info parsed) in
      let slot = by_slot_info-slot_info hb parsed head good in
      let kept = by_slot_info_keeps info head in
      record {
        same_sequence = kept.0 ∙ omega arith;
        same_slot = kept.1 ∙ slot.0;
        same_call = kept.2 ∙ slot.1;
        same_type = slot.2;
        same_packet =
            byte_copy_same memory 33 (replicate 33 0) (take 33 parsed.packet) refl
              (length-take 33 parsed.packet (omega arith))
            ∙ take_all 33 parsed.packet (omega arith);
      }

  size-frame_bytes :
      (info : ℕ) (parsed : ParsedPacket)
      → length parsed.packet ≡ 33
      → length (frame_bytes info parsed) ≡ 53
  unfolding frame_bytes little_endian
  size-frame_bytes info parsed size = omega (arith, length-take 33 parsed.packet (omega arith))

  -- With memory and a socket that sends in the end, a packet of 33 bytes whose values fit is
  -- sent as one frame of 53 bytes, and parsing the frame gives its sequence number, its slot,
  -- its kind of call, its data type and its bytes, save that the slot is 0 in direct mode and an invalid
  -- data type arrives as voice.
  pub parse_dmrd-homebrew_send :
      (hb : Homebrew) (parsed : ParsedPacket) (rest : List Answer)
      → IsCarried parsed
      → parsed.sequence < 256
      → length parsed.packet ≡ 33
      → send_loop hb.answers ≡ some (true, rest)
      → (frame : List ℕ) × (q : ParsedPacket) × (homebrew_send memory true hb parsed
          ≡ some (done, record hb { answers = rest; sent = frame ∷ hb.sent }))
        × (homebrew_parse_dmrd memory wire true frame ≡ (done, some q))
        × IsSame hb parsed q
  unfolding homebrew_send with_raw raw_new homebrew_send_raw after_send homebrew_parse_dmrd round_up
  parse_dmrd-homebrew_send hb parsed rest good small size sends =
      let info = slot_info hb parsed in
      (
        frame_bytes info parsed,
        parsed_frame memory wire true (frame_bytes info parsed),
        rw sends (
            ap (λ frame. some (done, record hb { answers = rest; sent = frame ∷ hb.sent }))
              (contents-dmrd_frame memory info parsed (omega arith))),
        rw (size-frame_bytes info parsed size) refl,
        parsed_frame-IsSame hb parsed good small size,
      )
