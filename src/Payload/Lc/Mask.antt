-- ===== src/Payload/Lc/Mask.antt =====
-- The mask over the parity bytes, and the bytes of the message under it.
use dmrlib.Common.{ℕ, ◌+◌, ◌*◌, ◌/◌, ◌^◌, ◌≤◌, ◌<◌, ◌≡◌, refl, ap, ◌∙◌, arith}
use dmrlib.Common.{
  true, ◌⊎◌, List, length, get_or, get_or_ext, length-fill, get_or-fill_hit, get_or-fill_miss,
}
use dmrlib.Common.{
  ◌==◌, ==_iff, if◌then◌else◌, ◌<<<◌, ◌>>>◌, u8, All, All-get_or, All-fill, all_below,
  all_below-true, bit_and, bit_or, bit_xor,
}
use dmrlib.Common.Xor.{xor_cancel, xor-lt}
use dmrlib.Common.Fields.{or_fields}
use native.Mathlib.Decide.{dec_lt}
use dmrlib.Bits.Convert.{IsByte}
use dmrlib.Payload.Lc.{FullLc, apply_mask, lc_bytes}

module _ (mask : ℕ) (bytes : List ℕ) where
  -- A byte with the mask over it.
  abbrev masked : ℕ → ℕ
  masked i = bit_xor (get_or bytes i 0) mask

  pub length-apply_mask : length (apply_mask mask bytes) ≡ length bytes
  unfolding apply_mask
  length-apply_mask = length-fill (λ i. i) masked 3 9 bytes

  at-apply_mask_low :
      (k : ℕ) → (k < 9) ⊎ (12 ≤ k) → get_or (apply_mask mask bytes) k 0 ≡ get_or bytes k 0
  unfolding apply_mask
  at-apply_mask_low k away =
      get_or-fill_miss (λ i. i) masked 3 9 k 0 bytes (λ j lo hi e. omega arith)

  at-apply_mask_high :
      (k : ℕ) → 9 ≤ k → k < 12 → k < length bytes → get_or (apply_mask mask bytes) k 0 ≡ masked k
  unfolding apply_mask
  at-apply_mask_high k lo hi within =
      get_or-fill_hit (λ i. i) masked 3 9 k 0 bytes lo hi within (λ m l h e. omega arith)

  pub apply_mask-IsByte : mask < 256 → All IsByte bytes → All IsByte (apply_mask mask bytes)
  unfolding apply_mask
  apply_mask-IsByte small all =
      All-fill IsByte (λ i. i) masked 3 9 bytes all
        (λ j lo hi.
          xor-lt 8 (get_or bytes j 0) mask (All-get_or IsByte bytes j 0 all (omega arith)) small)

-- The mask put on twice is gone.
pub apply_mask_twice : (mask : ℕ) (bytes : List ℕ) → apply_mask mask (apply_mask mask bytes) ≡ bytes
apply_mask_twice mask bytes =
    get_or_ext 0 _ bytes (length-apply_mask mask _ ∙ length-apply_mask mask bytes) λ k lt.
      elim (dec_lt k 9) [
        | yes low ↦
            at-apply_mask_low mask (apply_mask mask bytes) k (omega arith)
            ∙ at-apply_mask_low mask bytes k (omega arith)
        | no low ↦ elim (dec_lt k 12) [
          | yes high ↦
              at-apply_mask_high mask (apply_mask mask bytes) k (omega arith) high
                (omega (arith, length-apply_mask mask (apply_mask mask bytes)))
              ∙ ap (λ t. bit_xor t mask)
                  (at-apply_mask_high mask bytes k (omega arith) high (
                    omega (
                      arith,
                      length-apply_mask mask (apply_mask mask bytes),
                      length-apply_mask mask bytes,
                    )))
              ∙ xor_cancel (get_or bytes k 0) mask
          | no high ↦
              at-apply_mask_low mask (apply_mask mask bytes) k (omega arith)
              ∙ at-apply_mask_low mask bytes k (omega arith)
        ]
      ]

-- A number of 24 bits from its three bytes.
pub three_bytes :
    (x : ℕ)
    → x < 2 ^ 24
    → bit_or (bit_or (u8 (x >>> 16) <<< 16) (u8 (x >>> 8) <<< 8)) (u8 (x >>> 0)) ≡ x
three_bytes x h =
    ap (λ t. bit_or t (u8 (x >>> 0)))
      (or_fields 16 (u8 (x >>> 16)) (u8 (x >>> 8) <<< 8) (omega arith) ∙ shape x h)
    ∙ or_fields 8 (x / 256) (u8 (x >>> 0)) (omega arith)
    ∙ omega arith
  where
    shape : (x : ℕ) → x < 2 ^ 24 → u8 (x >>> 16) * 2 ^ 16 + (u8 (x >>> 8) <<< 8) ≡ x / 256 * 2 ^ 8
    shape x h = omega arith

pdu_table :
    all_below 64 (λ x. bit_and (u8 (bit_or (u8 x) (if x == 3 then 0x80 else 0x00))) 0x3f == x)
    ≡ true
unfolding all_below
pdu_table = refl

pub pdu_lem :
    (x : ℕ) → x < 64 → bit_and (u8 (bit_or (u8 x) (if x == 3 then 0x80 else 0x00))) 0x3f ≡ x
pdu_lem x h = (==_iff _ x).0 (all_below-true 64 _ x pdu_table h)

pub lc_bytes-IsByte : (lc : FullLc) → All IsByte (lc_bytes lc)
unfolding lc_bytes
lc_bytes-IsByte lc = omega arith
