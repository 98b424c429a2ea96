-- ===== src/Packet/RoundTrip.antt =====
-- The colour code and the data type that are written are read.
use dmrlib.Common.{ℕ, ◌+◌, ◌*◌, ◌/◌, ◌%◌, ◌≤◌, ◌<◌, ◌≡◌, ◌≢◌, refl, ap, ap₂, ◌∙◌, arith}
use dmrlib.Common.{◌||◌, none, some, List, get_or, length, if-else, all_below}
use dmrlib.Common.{ltb, leb, ◌<<<◌, ◌>>>◌, u8, bit_and, bit_or, All}
use dmrlib.Bits.Convert.{IsByte}
use dmrlib.Fec.Golay.{golay_20_8_encode}
use dmrlib.Packet.{write_slot_type, slot_type_decode, slot_type_encode}
use dmrlib.Packet.Fields.{on_bytes, on_two}
use dmrlib.Packet.SlotType.{read_first, read_second, read_third, still_read}
use dmrlib.Packet.SlotType.{write_slot_type_out, length-write_slot_type}

-- The word that is protected.
pack :
    (color_code data_type : ℕ)
    → color_code < 16
    → data_type < 16
    → bit_or (u8 (color_code <<< 4)) (bit_and data_type 0x0f) ≡ color_code * 16 + data_type
unfolding all_below
pack color_code data_type hc hd =
    on_two 16 16 (λ x y. bit_or (u8 (x <<< 4)) (bit_and y 0x0f)) (λ x y. x * 16 + y) refl color_code
      data_type hc hd

unpack :
    (code : ℕ)
    → code < 256
    → (bit_and code 0xf0 >>> 4 ≡ code / 16) × (bit_and code 0x0f ≡ code % 16)
unfolding all_below
unpack code h = (
  on_bytes (λ v. bit_and v 0xf0 >>> 4) (λ v. v / 16) refl code h,
  on_bytes (λ v. bit_and v 0x0f) (λ v. v % 16) refl code h,
)

pub pair_eq : {a b c d : ℕ} → a ≡ c → b ≡ d → ◌≡◌ {A = ℕ × ℕ} (a, b) (c, d)
pair_eq p q = ap₂ (λ x y. (x, y)) p q

pub golay_bytes : (d : ℕ) → ((golay_20_8_encode d).0 < 256) × ((golay_20_8_encode d).1 < 256)
unfolding golay_20_8_encode
golay_bytes d = omega arith

-- The packet after the encoder has written the protected word of `d`.
abbrev pub written : List ℕ → ℕ → List ℕ
written packet d = write_slot_type packet d (golay_20_8_encode d).0 (golay_20_8_encode d).1

module _ (packet : List ℕ) (d : ℕ) (room : 21 ≤ length packet) (all : All IsByte packet)
    (hd : d < 256) (clear : get_or packet 19 0 / 16 % 4 ≢ 3) where
  pub decode-written : slot_type_decode (written packet d) ≡ some (d / 16, d % 16)
  unfolding slot_type_decode
  decode-written =
      let b1 = (golay_20_8_encode d).0 in
      let b2 = (golay_20_8_encode d).1 in
      let small = golay_bytes d in
      rw
        (
          read_first packet d b1 b2 room all hd small.0 small.1,
          read_second packet d b1 b2 room all hd small.0 small.1,
          read_third packet d b1 b2 room all hd small.0 small.1,
          still_read (get_or packet 19 0 / 16 % 4) d (omega arith) hd,
        )
        (ap some (pair_eq (unpack d hd).0 (unpack d hd).1))

pub slot_type_encode_lem :
    (packet : List ℕ) (color_code data_type : ℕ)
    → 1 ≤ color_code
    → color_code ≤ 15
    → data_type < 10
    → slot_type_encode packet color_code data_type
      ≡ some (written packet (color_code * 16 + data_type))
unfolding slot_type_encode
slot_type_encode_lem packet color_code data_type lo hi ht =
    if-else (leb 10 data_type) none _ (ground arith)
    ∙ if-else (ltb color_code 1 || ltb 15 color_code) none _ (ground arith)
    ∙ ap (λ b0. some (write_slot_type packet b0 (golay_20_8_encode b0).0 (golay_20_8_encode b0).1))
        (pack color_code data_type (omega arith) (omega arith))

-- A colour code from 1 to 15 and a data type below 10 are read back from a packet of at least 21
-- bytes they were written to, unless bits 4 and 5 of byte 19 of the packet are both set; the length
-- and all other bytes than 12, 13, 19 and 20 are kept.
pub slot_type_decode-encode :
    (packet : List ℕ) (color_code data_type : ℕ)
    → 21 ≤ length packet
    → All IsByte packet
    → 1 ≤ color_code
    → color_code ≤ 15
    → data_type < 10
    → get_or packet 19 0 / 16 % 4 ≢ 3
    → (sent : List ℕ) × (slot_type_encode packet color_code data_type ≡ some sent)
      × (slot_type_decode sent ≡ some (color_code, data_type))
      × (length sent ≡ length packet)
      × ((k : ℕ) → k ≢ 12 → k ≢ 13 → k ≢ 19 → k ≢ 20 → get_or sent k 0 ≡ get_or packet k 0)
slot_type_decode-encode packet color_code data_type room all lo hi ht clear =
    let d = color_code * 16 + data_type in
    let (b1, b2) = golay_20_8_encode d in
    (
      written packet d,
      slot_type_encode_lem packet color_code data_type lo hi ht,
      decode-written packet d room all (omega arith) clear
          ∙ ap some (pair_eq (omega arith) (omega arith)),
      length-write_slot_type packet d b1 b2 room,
      write_slot_type_out packet d b1 b2 room,
    )
