-- ===== src/Fec/Golay/Syndrome.antt =====
-- The two nested loops compute the remainder of a polynomial division, and end.
use dmrlib.Common.{ℕ, zero, suc, ◌+◌, ◌*◌, ◌/◌, ◌%◌, ◌^◌, ◌≤◌, ◌<◌, ◌≡◌, refl, sym, ap, ◌∙◌, arith}
use dmrlib.Common.{
  true, false, some, ltb, if-then, if-else, subst, ◌-◌, ◌==◌, if◌then◌else◌, bit_and, bit_xor,
}
use dmrlib.Common.Xor.{digit, digit-xor, xor-lt}
use dmrlib.Common.Fields.{and_shift, and_low, and-pow, and_comm}
use dmrlib.Common.Powers.{pow_add, pow_mono, digit_above, top_clear, half_pow_pred}
use native.Mathlib.Nat.{pow-suc, one-le-pow, mul-div-mul_left}
use native.Mathlib.Decide.{ℕ_discrete, dec_le, dec_lt}
use dmrlib.Fec.Golay.{x22, x11, mask12, genpol, seek, divide, golay_20_8_syndrome}

-- Long division by the generator, from bit `n + 10` down to bit 11.
unfoldable pub residue : ℕ → ℕ → ℕ
residue zero p = p
residue (suc n) p = residue n (if digit (n + 11) p == 1 then bit_xor p (2 ^ n * genpol) else p)

high_bits : (p : ℕ) → bit_and p mask12 ≡ p / 2 ^ 11 % 2 ^ 21 * 2 ^ 11
high_bits p = and_shift 11 p 0x1fffff ∙ ap (λ (t : ℕ). t * 2 ^ 11) (and_low 21 (p / 2 ^ 11))

set_here : (k p : ℕ) → digit k p ≡ 1 → (bit_and (2 ^ k) p == 0) ≡ false
set_here k p h =
    ground (arith, and_comm (2 ^ k) p, and-pow k p, one-le-pow k 2, ap (λ (t : ℕ). t * 2 ^ k) h)

clear_here : (k p : ℕ) → digit k p ≡ 0 → (bit_and (2 ^ k) p == 0) ≡ true
clear_here k p h = ground (arith, and_comm (2 ^ k) p, and-pow k p, ap (λ (t : ℕ). t * 2 ^ k) h)

-- From any bit at or above its highest, the inner loop stops at the highest bit of the pattern.
seek_finds :
    (f k m p : ℕ)
    → digit k p ≡ 1
    → p < 2 ^ suc k
    → k ≤ m
    → m < f + k
    → seek f p (2 ^ m) ≡ some (2 ^ k)
unfolding seek
seek_finds zero k m p top small le fuel = absurd (omega arith)
seek_finds (suc f) k m p top small le fuel = elim (ℕ_discrete k m) [
  | yes e ↦ subst (λ t. seek (suc f) p (2 ^ t) ≡ some (2 ^ k)) e (if-else _ _ _ (set_here k p top))
  | no ne ↦
      if-then _ _ _ (clear_here m p (digit_above (suc k) m p small (omega arith)))
      ∙ ap (seek f p) (half_pow_pred m (omega arith))
      ∙ seek_finds f k (m - 1) p top small (omega arith) (omega arith)
]

none_high : (p : ℕ) → p < 2 ^ 11 → (bit_and p mask12 == 0) ≡ true
none_high p h = ground (arith, high_bits p)

some_high : (p : ℕ) → 2 ^ 11 ≤ p → p < 2 ^ 23 → (bit_and p mask12 == 0) ≡ false
some_high p h lt = ground (arith, high_bits p)

-- Below bit 11 nothing is left to divide.
divide_done : (f i p : ℕ) → p < 2 ^ 11 → divide (suc f) i p ≡ some p
unfolding divide
divide_done f i p h = if-then (bit_and p mask12 == 0) (some p) _ (none_high p h)

-- One round of the outer loop, from any `i` at or above the highest bit.
divide_round :
    (f k m p : ℕ)
    → digit k p ≡ 1
    → p < 2 ^ suc k
    → 11 ≤ k
    → k ≤ m
    → m < 23
    → divide (suc f) (2 ^ m) p ≡ divide f (2 ^ k) (bit_xor p (2 ^ k / x11 * genpol))
unfolding divide
divide_round f k m p top small low le lim = rw (seek_finds 24 k m p top small le (omega arith)) (
    if-else (bit_and p mask12 == 0) (some p) _ (
      some_high p (omega (arith, reaches, pow_mono 11 k low))
        (omega (arith, pow_mono (suc k) 23 (omega arith)))))
  where
    reaches : 2 ^ k ≤ p
    reaches = elim (dec_le (2 ^ k) p) [
      | yes h ↦ h
      | no h ↦ absurd (omega (arith, digit_above k k p (omega arith) (omega arith)))
    ]

-- The shifted generator has its highest bit at `n + 11`, so a round clears that bit.
generator_fits : (n : ℕ) → 2 ^ n * genpol < 2 ^ suc (n + 11)
generator_fits n = omega (arith, pow-suc 2 (n + 11), pow_add n 11, one-le-pow n 2)

generator_top : (n : ℕ) → digit (n + 11) (2 ^ n * genpol) ≡ 1
generator_top n =
    ap (λ (t : ℕ). 2 ^ n * genpol / t % 2) (pow_add n 11 ∙ commuted n)
    ∙ ap (λ (t : ℕ). t % 2) (mul-div-mul_left genpol 2048 (one-le-pow n 2 (omega arith)))
  where
    commuted : (n : ℕ) → 2048 * 2 ^ n ≡ 2 ^ n * 2048
    commuted n = omega arith

round_clears :
    (n p : ℕ)
    → digit (n + 11) p ≡ 1
    → p < 2 ^ suc (n + 11)
    → bit_xor p (2 ^ n * genpol) < 2 ^ (n + 11)
round_clears n p top small =
    top_clear (n + 11) (bit_xor p (2 ^ n * genpol))
      (xor-lt (suc (n + 11)) p (2 ^ n * genpol) small (generator_fits n))
      (omega (arith, digit-xor (n + 11) p (2 ^ n * genpol), generator_top n))

shifted : (n : ℕ) → 2 ^ (n + 11) / x11 * genpol ≡ 2 ^ n * genpol
shifted n = omega (arith, pow_add n 11)

-- Enough fuel, and the remainder.
divide-residue :
    (n f m p : ℕ)
    → p < 2 ^ (n + 11)
    → n + 10 ≤ m
    → m < 23
    → n < f
    → divide f (2 ^ m) p ≡ some (residue n p)
unfolding residue
divide-residue n zero m p small le lim fuel = absurd (omega arith)
divide-residue zero (suc f) m p small le lim fuel = divide_done f (2 ^ m) p small
divide-residue (suc n) (suc f) m p small le lim fuel = elim (ℕ_discrete (digit (n + 11) p) 1) [
  | yes top ↦
      divide_round f (n + 11) m p top (next_pow n p small) (omega arith) (omega arith) lim
      ∙ ap (λ t. divide f (2 ^ (n + 11)) (bit_xor p t)) (shifted n)
      ∙ divide-residue n f (n + 11) (bit_xor p (2 ^ n * genpol))
          (round_clears n p top (next_pow n p small)) (omega arith) (omega arith) (omega arith)
      ∙ ap (λ t. some (residue n t)) (sym (if-then (digit (n + 11) p == 1) _ p (ground arith)))
  | no clear ↦
      divide-residue n (suc f) m p (top_clear (n + 11) p (next_pow n p small) (omega arith))
        (omega arith) lim (omega arith)
      ∙ ap (λ t. some (residue n t)) (sym (if-else (digit (n + 11) p == 1) _ p (ground arith)))
]
  where
    next_pow : (n p : ℕ) → p < 2 ^ (suc n + 11) → p < 2 ^ suc (n + 11)
    next_pow n p h =
        omega (arith, ap (λ (t : ℕ). 2 ^ t) {x = suc n + 11} {y = suc (n + 11)} (omega arith))

residue_small : (n p : ℕ) → p < 2 ^ 11 → residue n p ≡ p
unfolding residue
residue_small zero p h = refl
residue_small (suc n) p h =
    ap (residue n) (
      if-else (digit (n + 11) p == 1) (bit_xor p (2 ^ n * genpol)) p
        (ground (arith, digit_above 11 (n + 11) p h)))
    ∙ residue_small n p h

-- For every word of at most 23 bits both loops end, with the remainder of the word divided by
-- the generator polynomial.
pub golay_20_8_syndrome-residue : (p : ℕ) → p < 2 ^ 23 → golay_20_8_syndrome p ≡ some (residue 12 p)
unfolding golay_20_8_syndrome
golay_20_8_syndrome-residue p h = elim (dec_lt p x11) [
  | yes small ↦
      if-then (ltb p x11) (some p) (divide 24 x22 p) (ground arith)
      ∙ ap some (sym (residue_small 12 p small))
  | no big ↦
      if-else (ltb p x11) (some p) (divide 24 x22 p) (ground arith)
      ∙ divide-residue 12 24 22 p h (omega arith) (omega arith) (omega arith)
]
