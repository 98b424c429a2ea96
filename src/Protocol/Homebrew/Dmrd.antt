-- ===== src/Protocol/Homebrew/Dmrd.antt =====
-- src/dmr/protocol/homebrew.c: the frame of 53 bytes that carries a packet.
pub mod Layout
pub mod Slot
pub mod RoundTrip
use dmrlib.Common.{
  ℕ, Bool, true, false, ◌||◌, Option, List, [], ◌∷◌, ◌==◌, if◌then◌else◌, bit_and, bit_or, ◌<<<◌,
  u8,
}
use dmrlib.Raw.{Memory, Raw, raw_new, raw_add, raw_add_uint8, raw_add_uint}
use dmrlib.Packet.{ParsedPacket, data_type_voice_sync}
use dmrlib.Payload.Lc.{data_type_invalid}
use dmrlib.Protocol.Homebrew.{Homebrew, Reply, with_raw, homebrew_send_raw}
use dmrlib.Protocol.Homebrew.Read.{data_type_voice}

abbrev pub flco_private : ℕ
flco_private = 1

-- "DMRD".
abbrev pub dmrd : List ℕ
dmrd = 0x44 ∷ 0x4d ∷ 0x52 ∷ 0x44 ∷ []

-- The slot information, a byte.
unfoldable pub slot_info : Homebrew → ParsedPacket → ℕ
slot_info hb parsed =
    let slot = if hb.rx_freq == hb.tx_freq then 0 else u8 parsed.ts in
    let call = if parsed.flco == flco_private then bit_or slot 0x02 else slot in
    if (parsed.data_type == data_type_invalid) || (parsed.data_type == data_type_voice)
    then u8 (bit_or call (parsed.voice_frame <<< 4))
    else (if parsed.data_type == data_type_voice_sync
        then bit_or call 0x04
        else u8 (bit_or (bit_or call 0x08) (parsed.data_type <<< 4)))

-- The results of the appends are not looked at.
module _ (memory : Memory) where
  unfoldable pub dmrd_frame : ℕ → ParsedPacket → Raw → Raw
  dmrd_frame info parsed raw =
      let r1 = (raw_add memory raw dmrd 4).1 in
      let r2 = (raw_add_uint8 memory r1 (bit_and parsed.sequence 0xff)).1 in
      let r3 = (raw_add_uint memory 3 r2 parsed.src_id).1 in
      let r4 = (raw_add_uint memory 3 r3 parsed.dst_id).1 in
      let r5 = (raw_add_uint memory 4 r4 parsed.repeater_id).1 in
      let r6 = (raw_add_uint8 memory r5 info).1 in
      let r7 = (raw_add_uint memory 4 r6 parsed.stream_id).1 in
      (raw_add memory r7 parsed.packet 33).1

  unfoldable pub homebrew_send : Bool → Homebrew → ParsedPacket → Reply
  homebrew_send given hb parsed =
      with_raw hb (raw_new given given 53)
        (λ raw. homebrew_send_raw hb (dmrd_frame (slot_info hb parsed) parsed raw))
