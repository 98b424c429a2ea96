-- ===== src/Fec/Qr/Code.antt =====
-- The codewords of the table, their distance, and what the parity check accepts.
use dmrlib.Common.{ℕ, ◌+◌, ◌*◌, ◌/◌, ◌%◌, ◌≤◌, ◌<◌, ◌≡◌, refl, sym, ap, ◌∙◌, ◌^◌, arith, true, ◌↔◌}
use dmrlib.Common.{◌==◌, ==_iff, leb, ◌||◌, get_or, bit_and, bit_xor}
use dmrlib.Common.{all_below, all_below-true}
use mathlib.Core.Path.{subst₂}
use dmrlib.Common.Fields.{and_low, or_fields}
use dmrlib.Common.Weight.{weight}
use dmrlib.Fec.Qr.{encoder_map, qr_16_7_encode, qr_16_7_decode}

abbrev pub codeword : ℕ → ℕ
codeword dv = get_or encoder_map dv 0

-- Each entry has its index in the seven bits above the parity.
systematic_table : all_below 128 (λ dv. codeword dv / 512 == dv) ≡ true
unfolding all_below encoder_map
systematic_table = refl

distance_table :
    all_below 128
      (λ x. all_below 128 (λ y. x == y || leb 6 (weight 16 (bit_xor (codeword x) (codeword y)))))
    ≡ true
unfolding all_below encoder_map weight
distance_table = refl

codeword-div : (dv : ℕ) → dv < 128 → codeword dv / 512 ≡ dv
codeword-div dv h =
    (==_iff _ dv).0 (all_below-true 128 (λ dv. codeword dv / 512 == dv) dv systematic_table h)

-- The check accepts exactly the words of the table: that of their seven data bits.
pub qr_16_7_decode_iff :
    (b0 b1 : ℕ)
    → b0 < 256
    → b1 < 256
    → (qr_16_7_decode (b0, b1) ≡ true) ↔ (codeword (b0 / 2) ≡ b0 * 256 + b1)
unfolding qr_16_7_decode
qr_16_7_decode_iff b0 b1 h k = ground (
  arith,
  codeword-div (b0 / 2),
  and_low 9 (codeword (b0 / 2)),
  and_low 1 b0,
  or_fields 8 (bit_and b0 1) b1 k,
)

codeword-lt : (dv : ℕ) → dv < 128 → codeword dv < 65_536
codeword-lt dv h = omega (arith, codeword-div dv h)

encode_lem :
    (b0 b1 : ℕ)
    → ((qr_16_7_encode (b0, b1)).0 ≡ codeword (b0 / 2 % 128) / 256)
      × ((qr_16_7_encode (b0, b1)).1 ≡ codeword (b0 / 2 % 128) % 256)
unfolding qr_16_7_encode
encode_lem b0 b1 = rw (and_low 7 (b0 / 2 ^ 1)) (
  omega (arith, codeword-lt (b0 / 2 % 128) (omega arith)),
  omega (arith, and_low 8 (codeword (b0 / 2 % 128))),
)

-- Encoding keeps the seven data bits, and the check accepts what it makes.
pub qr_16_7_decode-encode :
    (b0 b1 : ℕ)
    → (qr_16_7_decode (qr_16_7_encode (b0, b1)) ≡ true)
      × ((qr_16_7_encode (b0, b1)).0 / 2 ≡ b0 / 2 % 128)
qr_16_7_decode-encode b0 b1 =
    let e = encode_lem b0 b1 in
    let d = codeword-div (b0 / 2 % 128) (omega arith) in
    let kept : (qr_16_7_encode (b0, b1)).0 / 2 ≡ b0 / 2 % 128 = omega arith in
    (
      (qr_16_7_decode_iff (qr_16_7_encode (b0, b1)).0 (qr_16_7_encode (b0, b1)).1 (omega arith)
            (omega arith)).1
          (ap codeword kept ∙ omega arith),
      kept,
    )

far_apart :
    (x y : ℕ) → x < 128 → y < 128 → weight 16 (bit_xor (codeword x) (codeword y)) ≤ 5 → x ≡ y
far_apart x y h k close = ground (
  arith,
  all_below-true 128 (λ y. x == y || leb 6 (weight 16 (bit_xor (codeword x) (codeword y)))) y
      (all_below-true 128
        (λ x. all_below 128 (λ y. x == y || leb 6 (weight 16 (bit_xor (codeword x) (codeword y)))))
        x distance_table h)
      k,
)

-- A received word that differs from an accepted one in at most five of the sixteen bits is
-- accepted only if it is that word.
pub qr_16_7_decode_detects :
    (b0 b1 c0 c1 : ℕ)
    → b0 < 256
    → b1 < 256
    → c0 < 256
    → c1 < 256
    → weight 16 (bit_xor (b0 * 256 + b1) (c0 * 256 + c1)) ≤ 5
    → qr_16_7_decode (b0, b1) ≡ true
    → qr_16_7_decode (c0, c1) ≡ true
    → (b0 ≡ c0) × (b1 ≡ c1)
qr_16_7_decode_detects b0 b1 c0 c1 hb0 hb1 hc0 hc1 close ok ok' =
    let b = (qr_16_7_decode_iff b0 b1 hb0 hb1).0 ok in
    let c = (qr_16_7_decode_iff c0 c1 hc0 hc1).0 ok' in
    let near =
      far_apart (b0 / 2) (c0 / 2) (omega arith) (omega arith)
        (subst₂ (λ s t. weight 16 (bit_xor s t) ≤ 5) (sym b) (sym c) close) in
    omega (arith, b, c, ap codeword near)
