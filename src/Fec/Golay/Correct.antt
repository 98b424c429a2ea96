-- ===== src/Fec/Golay/Correct.antt =====
-- The decoder corrects every corruption of at most three bits.
use dmrlib.Common.{ℕ, ◌+◌, ◌*◌, ◌/◌, ◌%◌, ◌^◌, ◌≤◌, ◌<◌, ◌≡◌, refl, sym, ap, ap₂, ◌∙◌, arith}
use dmrlib.Common.{true, some, ◌==◌, ==_iff, if◌then◌else◌, if-then, if-else}
use dmrlib.Common.{u8, ◌>>>◌, get_or, bit_or, bit_xor, all_below, all_below-true}
use dmrlib.Common.Xor.{xor_cancel, xor-lt, zero-bit_xor, xor-zero}
use native.Mathlib.Decide.{ℕ_discrete}
use dmrlib.Common.Fields.{or_fields, xor_fields, xor_shift}
use dmrlib.Common.Weight.{weight, weight_fields, light, light-true}
use dmrlib.Fec.Golay.{
  decoder, encoder, code_of, repair, golay_20_8_syndrome, golay_20_8_decode, golay_20_8_encode,
}
use dmrlib.Fec.Golay.Syndrome.{residue, golay_20_8_syndrome-residue}
use dmrlib.Fec.Golay.Linear.{residue-xor}

-- The word that is sent for a data byte, as the decoder reads it.
abbrev sent : ℕ → ℕ
sent d = code_of d (get_or encoder d 0 % 256) (get_or encoder d 0 / 256 % 256)

-- The word of every data byte leaves no remainder.
codeword_table : all_below 256 (λ d. residue 12 (sent d) == 0) ≡ true
unfolding all_below residue encoder code_of
codeword_table = refl

-- For every error of at most three among the 19 bits, the table of error patterns holds the
-- error itself at its remainder.
pattern_table : light 19 3 1 0 (λ e. get_or decoder (residue 12 e) 0 == e) ≡ true
unfolding light residue decoder
pattern_table = refl

as_fields :
    (d0 d1 d2 : ℕ) → d1 < 256 → d2 < 256 → code_of d0 d1 d2 ≡ (d0 * 2 ^ 8 + d1) * 2 ^ 3 + d2 / 2 ^ 5
unfolding code_of
as_fields d0 d1 d2 h k =
    ap (λ (t : ℕ). bit_or t (d2 / 2 ^ 5))
      (or_fields 11 d0 (d1 * 2 ^ 3) (omega arith) ∙ regroup d0 d1)
    ∙ or_fields 3 (d0 * 2 ^ 8 + d1) (d2 / 2 ^ 5) (omega arith)
  where
    regroup : (a b : ℕ) → a * 2 ^ 11 + b * 2 ^ 3 ≡ (a * 2 ^ 8 + b) * 2 ^ 3
    regroup a b = omega arith

module _ (d0 d1 d2 e0 e1 e2 : ℕ) (hd1 : d1 < 256) (hd2 : d2 < 256) (he1 : e1 < 256)
    (he2 : e2 < 256) where
  -- The word is read bit by bit, so errors in the bytes are errors in the word.
  code_of-xor :
      code_of (bit_xor d0 e0) (bit_xor d1 e1) (bit_xor d2 e2)
      ≡ bit_xor (code_of d0 d1 d2) (code_of e0 e1 e2)
  code_of-xor =
      as_fields (bit_xor d0 e0) (bit_xor d1 e1) (bit_xor d2 e2) (xor-lt 8 d1 e1 hd1 he1)
        (xor-lt 8 d2 e2 hd2 he2)
      ∙ ap₂ (λ (s t : ℕ). s * 2 ^ 3 + t) (sym (xor_fields 8 d0 d1 e0 e1 hd1 he1))
          (xor_shift 5 d2 e2)
      ∙ sym (
          ap₂ bit_xor (as_fields d0 d1 d2 hd1 hd2) (as_fields e0 e1 e2 he1 he2)
          ∙ xor_fields 3 (d0 * 2 ^ 8 + d1) (d2 / 2 ^ 5) (e0 * 2 ^ 8 + e1) (e2 / 2 ^ 5) (omega arith)
              (omega arith))

weight-code_of-le :
    (e0 e1 e2 : ℕ)
    → e1 < 256
    → e2 < 256
    → weight 19 (code_of e0 e1 e2) ≤ weight 8 e0 + weight 8 e1 + weight 8 e2
weight-code_of-le e0 e1 e2 h k = omega (
  arith,
  ap (weight 19) (as_fields e0 e1 e2 h k),
  weight_fields 3 16 (e0 * 2 ^ 8 + e1) (e2 / 2 ^ 5) (omega arith),
  weight_fields 8 8 e0 e1 h,
  weight_fields 5 3 (e2 / 2 ^ 5) (e2 % 2 ^ 5) (omega arith),
  ap (weight 8) (whole e2),
)
  where
    whole : (e : ℕ) → e ≡ e / 2 ^ 5 * 2 ^ 5 + e % 2 ^ 5
    whole e = omega arith

pattern_of : (e : ℕ) → e < 2 ^ 19 → weight 19 e ≤ 3 → get_or decoder (residue 12 e) 0 ≡ e
pattern_of e h k =
    ap (λ (t : ℕ). get_or decoder (residue 12 t) 0) (unit e)
    ∙ (==_iff _ _).0
        (light-true 19 3 1 0 (λ e. get_or decoder (residue 12 e) 0 == e) e pattern_table h k)
    ∙ sym (unit e)
  where
    unit : (e : ℕ) → e ≡ 0 + 1 * e
    unit e = omega arith

residue-sent : (d : ℕ) → d < 256 → residue 12 (sent d) ≡ 0
residue-sent d h =
    (==_iff _ 0).0 (all_below-true 256 (λ d. residue 12 (sent d) == 0) d codeword_table h)

sent-div : (d : ℕ) → d < 256 → sent d / 2 ^ 11 % 256 ≡ d
sent-div d h = omega (
  arith,
  as_fields d (get_or encoder d 0 % 256) (get_or encoder d 0 / 256 % 256) (omega arith)
      (omega arith),
)

-- Where the table gives the error, taking it off leaves what was sent.
repaired : (c e : ℕ) → (if e == 0 then bit_xor c e else bit_xor (bit_xor c e) e) ≡ c
repaired c e = elim (ℕ_discrete e 0) [
  | yes p ↦ if-then (e == 0) (bit_xor c e) _ (ground arith) ∙ ap (bit_xor c) p ∙ xor-zero c
  | no p ↦ if-else (e == 0) (bit_xor c e) (bit_xor (bit_xor c e) e) (ground arith) ∙ xor_cancel c e
]

decode_word :
    (c e d : ℕ)
    → c < 2 ^ 23
    → e < 2 ^ 19
    → weight 19 e ≤ 3
    → residue 12 c ≡ 0
    → golay_20_8_syndrome (bit_xor c e) ≡ some (residue 12 e)
decode_word c e d hc he few clean =
    golay_20_8_syndrome-residue (bit_xor c e) (xor-lt 23 c e hc (omega arith))
    ∙ ap some (
        residue-xor 12 c e
        ∙ ap (λ (t : ℕ). bit_xor t (residue 12 e)) clean
        ∙ zero-bit_xor (residue 12 e))

repair_lem :
    (c e d : ℕ)
    → c < 2 ^ 23
    → e < 2 ^ 19
    → weight 19 e ≤ 3
    → residue 12 c ≡ 0
    → repair (bit_xor c e) ≡ some (u8 (c / 2 ^ 11))
unfolding repair
repair_lem c e d hc he few clean =
    rw (decode_word c e d hc he few clean, repair)
      (rw (pattern_of e he few) (ap (λ (t : ℕ). some (u8 (t / 2 ^ 11))) (repaired c e)))

-- The decoder ends and returns the data byte that was encoded, whichever at most three of the
-- 24 received bits are wrong.
pub golay_20_8_decode_corrects :
    (d e0 e1 e2 : ℕ)
    → d < 256
    → e0 < 256
    → e1 < 256
    → e2 < 256
    → weight 8 e0 + weight 8 e1 + weight 8 e2 ≤ 3
    → let (c1, c2) = golay_20_8_encode d in
      golay_20_8_decode (bit_xor d e0) (bit_xor c1 e1) (bit_xor c2 e2) ≡ some d
unfolding golay_20_8_encode golay_20_8_decode
golay_20_8_decode_corrects d e0 e1 e2 hd h0 h1 h2 few =
    ap repair (code_of-xor d c1 c2 e0 e1 e2 (omega arith) (omega arith) h1 h2)
    ∙ repair_lem (sent d) (code_of e0 e1 e2) d
        (omega (arith, as_fields d c1 c2 (omega arith) (omega arith)))
        (omega (arith, as_fields e0 e1 e2 h1 h2)) (omega (arith, weight-code_of-le e0 e1 e2 h1 h2))
        (residue-sent d hd)
    ∙ ap some (sent-div d hd)
  where
    c1 : ℕ
    c1 = get_or encoder d 0 % 256

    c2 : ℕ
    c2 = get_or encoder d 0 / 256 % 256

repair_ends : (c : ℕ) → c < 2 ^ 23 → (d : ℕ) × (repair c ≡ some d)
unfolding repair
repair_ends c h = (
  u8 (
      (if get_or decoder (residue 12 c) 0 == 0
        then c
        else bit_xor c (get_or decoder (residue 12 c) 0))
      >>> 11),
  rw (golay_20_8_syndrome-residue c h, repair) refl,
)

-- The decoder ends on every three bytes.
pub golay_20_8_decode_ends :
    (d0 d1 d2 : ℕ)
    → d0 < 256
    → d1 < 256
    → d2 < 256
    → (d : ℕ) × (golay_20_8_decode d0 d1 d2 ≡ some d)
unfolding golay_20_8_decode
golay_20_8_decode_ends d0 d1 d2 h0 h1 h2 =
    repair_ends (code_of d0 d1 d2) (omega (arith, as_fields d0 d1 d2 h1 h2))
