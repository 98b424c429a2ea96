-- ===== src/Packet/Decode.antt =====
-- The decoder of packets: it ends, and what the two encoders write do not disturb each other.
use dmrlib.Common.{ℕ, ◌+◌, ◌*◌, ◌/◌, ◌%◌, ◌≤◌, ◌<◌, ◌≡◌, ◌≢◌, refl, sym, ap, ◌∙◌, arith}
use dmrlib.Common.{true, some, List, get_or, length, drop, all_below}
use dmrlib.Common.{◌>>>◌, bit_and, bit_xor, All, All-get_or}
use dmrlib.Common.Fields.{and_xor}
use dmrlib.Common.Weight.{weight}
use dmrlib.Bits.Convert.{IsByte, get_or-drop}
use dmrlib.Fec.Golay.{golay_20_8_encode}
use dmrlib.Fec.Golay.Correct.{golay_20_8_decode_ends}
use mathlib.Core.Option
use dmrlib.Payload.Sync.{SyncPattern, unknown, bit_diff, closest, sync_pattern_decode}
use dmrlib.Payload.Sync.{
  bs_sourced_voice, bs_sourced_data, ms_sourced_voice, ms_sourced_data, ms_sourced_rc,
  direct_voice_ts1, direct_data_ts1, direct_voice_ts2, direct_data_ts2,
}
use dmrlib.Payload.Sync.{
  pattern_bs_sourced_voice, pattern_bs_sourced_data, pattern_ms_sourced_voice,
  pattern_ms_sourced_data, pattern_ms_sourced_rc, pattern_direct_voice_ts1, pattern_direct_data_ts1,
  pattern_direct_voice_ts2, pattern_direct_data_ts2,
}
use dmrlib.Payload.Sync.Distance.{differing, hamming_distance, bit_diff-hamming_distance}
use dmrlib.Packet.{
  write_slot_type, slot_type_decode, slot_type_encode, first_byte, second_byte, third_byte,
}
use dmrlib.Packet.{ParsedPacket, parsed_as, result, by_slot_type, by_pattern, packet_decode}
use dmrlib.Packet.Fields.{on_bytes, first_byte_lem, second_byte-lt, third_byte_lem}
use dmrlib.Packet.RoundTrip.{written, golay_bytes, pair_eq, decode-written, slot_type_encode_lem}
use dmrlib.Packet.SlotType.{at_13, at_19, write_slot_type_out}

differing_cong : (m a c b : ℕ) → bit_and m a ≡ bit_and m c → differing m a b ≡ differing m c b
unfolding differing
differing_cong m a c b same =
    ap (weight 8) (and_xor m a b ∙ ap (λ t. bit_xor t (bit_and m b)) same ∙ sym (and_xor m c b))

-- Words at one distance from everything are decoded alike.
closest_cong : (a c : List ℕ) → ((v : List ℕ) → bit_diff a v ≡ bit_diff c v) → closest a ≡ closest c
unfolding closest
closest_cong a c same =
    rw
      (
        same pattern_bs_sourced_voice,
        same pattern_bs_sourced_data,
        same pattern_ms_sourced_voice,
        same pattern_ms_sourced_data,
        same pattern_ms_sourced_rc,
        same pattern_direct_voice_ts1,
        same pattern_direct_data_ts1,
        same pattern_direct_voice_ts2,
        same pattern_direct_data_ts2,
      )
      refl

module _ (packet : List ℕ) (b0 b1 b2 : ℕ) (room : 21 ≤ length packet) (all : All IsByte packet)
    (h0 : b0 < 256) (h1 : b1 < 256) (h2 : b2 < 256) where
  abbrev sent : List ℕ
  sent = write_slot_type packet b0 b1 b2

  low_half : bit_and 0x0f (get_or sent 13 0) ≡ bit_and 0x0f (get_or packet 13 0)
  unfolding all_below
  low_half =
      on_bytes (λ v. bit_and 0x0f v) (λ v. v % 16) refl (get_or sent 13 0)
        (omega (arith, at_13 packet b0 b1 b2 room all h0 h1 h2))
      ∙ omega (arith, at_13 packet b0 b1 b2 room all h0 h1 h2)
      ∙ sym (
          on_bytes (λ v. bit_and 0x0f v) (λ v. v % 16) refl (get_or packet 13 0)
            (All-get_or IsByte packet 13 0 all (omega arith)))

  high_half : bit_and 0xf0 (get_or sent 19 0) ≡ bit_and 0xf0 (get_or packet 19 0)
  unfolding all_below
  high_half =
      let small = All-get_or IsByte packet 19 0 all (omega arith) in
      on_bytes (λ v. bit_and 0xf0 v) (λ v. v / 16 * 16) refl (get_or sent 19 0)
        (omega (arith, at_19 packet b0 b1 b2 room all h0 h1 h2, small))
      ∙ omega (arith, at_19 packet b0 b1 b2 room all h0 h1 h2)
      ∙ sym (on_bytes (λ v. bit_and 0xf0 v) (λ v. v / 16 * 16) refl (get_or packet 19 0) small)

  kept : (i : ℕ) → 0 < i → i < 6 → get_or (drop 13 sent) i 0 ≡ get_or (drop 13 packet) i 0
  kept i lo hi =
      get_or-drop 13 i sent 0
      ∙ write_slot_type_out packet b0 b1 b2 room (13 + i) (λ q. omega arith) (λ q. omega arith)
          (λ q. omega arith) (λ q. omega arith)
      ∙ sym (get_or-drop 13 i packet 0)

  same_distance :
      (v : List ℕ) → hamming_distance (drop 13 sent) v ≡ hamming_distance (drop 13 packet) v
  unfolding hamming_distance
  same_distance v =
      rw
        (
          kept 1 (omega arith) (omega arith),
          kept 2 (omega arith) (omega arith),
          kept 3 (omega arith) (omega arith),
          kept 4 (omega arith) (omega arith),
          kept 5 (omega arith) (omega arith),
          get_or-drop 13 0 sent 0,
          get_or-drop 13 0 packet 0,
          get_or-drop 13 6 sent 0,
          get_or-drop 13 6 packet 0,
          differing_cong 0x0f (get_or sent 13 0) (get_or packet 13 0) (get_or v 0 0) low_half,
          differing_cong 0xf0 (get_or sent 19 0) (get_or packet 19 0) (get_or v 6 0) high_half,
        )
        refl

  -- Writing a word as the slot type into a packet of at least 21 bytes does not change the
  -- pattern that is found in it.
  pub sync_pattern_decode-write_slot_type : sync_pattern_decode sent ≡ sync_pattern_decode packet
  unfolding sync_pattern_decode
  sync_pattern_decode-write_slot_type = closest_cong (drop 13 sent) (drop 13 packet) (λ v.
      bit_diff-hamming_distance (drop 13 sent) v
      ∙ same_distance v
      ∙ sym (bit_diff-hamming_distance (drop 13 packet) v))

slot_type_decode_ends :
    (packet : List ℕ)
    → All IsByte packet
    → (color_code data_type : ℕ) × (slot_type_decode packet ≡ some (color_code, data_type))
unfolding slot_type_decode
slot_type_decode_ends packet all =
    let small : (k : ℕ) → get_or packet k 0 < 256 =
      λ k. All-get_or IsByte packet k 0 all (omega arith) in
    let p12 = get_or packet 12 0 in
    let p13 = get_or packet 13 0 in
    let p19 = get_or packet 19 0 in
    let p20 = get_or packet 20 0 in
    let (code, e) =
      golay_20_8_decode_ends (first_byte p12 p13) (second_byte p13 p19 p20) (third_byte p20)
        (omega
          (arith, small 12, small 13, first_byte_lem p12 p13 p20 (small 12) (small 13) (small 20)))
        (second_byte-lt p13 p19 p20 (small 13) (small 19) (small 20))
        (omega (arith, third_byte_lem p12 p13 p20 (small 12) (small 13) (small 20))) in
    (
      bit_and code 0xf0 >>> 4,
      bit_and code 0x0f,
      ap (Option.map (λ code. (bit_and code 0xf0 >>> 4, bit_and code 0x0f))) e,
    )

ends_by_slot_type :
    (packet : List ℕ)
    → All IsByte packet
    → (r : ParsedPacket) × (by_slot_type packet (slot_type_decode packet) ≡ result r)
unfolding by_slot_type
ends_by_slot_type packet all =
    let (color_code, data_type, e) = slot_type_decode_ends packet all in
    (parsed_as packet 0 data_type color_code, ap (by_slot_type packet) e)

ends_by_pattern :
    (packet : List ℕ) (q : SyncPattern)
    → All IsByte packet
    → (r : ParsedPacket) × (by_pattern packet q ≡ result r)
unfolding by_pattern
ends_by_pattern packet bs_sourced_voice all = (_, refl)
ends_by_pattern packet bs_sourced_data all = (_, refl)
ends_by_pattern packet ms_sourced_voice all = (_, refl)
ends_by_pattern packet ms_sourced_data all = (_, refl)
ends_by_pattern packet ms_sourced_rc all = ends_by_slot_type packet all
ends_by_pattern packet direct_voice_ts1 all = (_, refl)
ends_by_pattern packet direct_data_ts1 all = (_, refl)
ends_by_pattern packet direct_voice_ts2 all = (_, refl)
ends_by_pattern packet direct_data_ts2 all = (_, refl)
ends_by_pattern packet unknown all = ends_by_slot_type packet all

-- The decoder of packets ends on every packet of bytes, when memory is given.
pub packet_decode_ends :
    (packet : List ℕ)
    → All IsByte packet
    → (r : ParsedPacket) × (packet_decode true packet ≡ result r)
unfolding packet_decode
packet_decode_ends packet all = ends_by_pattern packet (sync_pattern_decode packet) all

-- A colour code from 1 to 15 and a data type below 10 that are written to a packet of at least 21
-- bytes with no synchronisation pattern are what the decoder of packets finds, unless bits 4 and
-- 5 of byte 19 are both set.
pub packet_decode-slot_type_encode :
    (packet : List ℕ) (color_code data_type : ℕ)
    → 21 ≤ length packet
    → All IsByte packet
    → 1 ≤ color_code
    → color_code ≤ 15
    → data_type < 10
    → get_or packet 19 0 / 16 % 4 ≢ 3
    → sync_pattern_decode packet ≡ unknown
    → (sent : List ℕ) × (slot_type_encode packet color_code data_type ≡ some sent)
      × (packet_decode true sent ≡ result (parsed_as sent 0 data_type color_code))
unfolding packet_decode by_pattern by_slot_type
packet_decode-slot_type_encode packet color_code data_type room all lo hi ht clear silent =
    let d = color_code * 16 + data_type in
    let (b1, b2) = golay_20_8_encode d in
    let small = golay_bytes d in
    (
      written packet d,
      slot_type_encode_lem packet color_code data_type lo hi ht,
      ap (by_pattern (written packet d)) (
            sync_pattern_decode-write_slot_type packet d b1 b2 room all (omega arith) small.0
              small.1
            ∙ silent)
          ∙ ap (by_slot_type (written packet d)) (
              decode-written packet d room all (omega arith) clear
              ∙ ap some (pair_eq (omega arith) (omega arith))),
    )
