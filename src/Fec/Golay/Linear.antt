-- ===== src/Fec/Golay/Linear.antt =====
-- The remainder of a sum is the sum of the remainders.
use dmrlib.Common.{ℕ, zero, suc, ◌+◌, ◌*◌, ◌^◌, ◌≡◌, refl, sym, ap, ap₂, ◌∙◌, arith}
use dmrlib.Common.{◌==◌, if◌then◌else◌, if-then, if-else, bit_xor}
use dmrlib.Common.Xor.{digit, digit-xor, xor_assoc, xor_comm, xor_cancel}
use native.Mathlib.Decide.{ℕ_discrete}
use dmrlib.Fec.Golay.{genpol}
use dmrlib.Fec.Golay.Syndrome.{residue}

-- One round of the division, by the generator shifted to `g`.
abbrev round : ℕ → ℕ → ℕ → ℕ
round k g p = if digit k p == 1 then bit_xor p g else p

round_set : (k g p : ℕ) → digit k p ≡ 1 → round k g p ≡ bit_xor p g
round_set k g p h = if-then (digit k p == 1) (bit_xor p g) p (ground arith)

round_clear : (k g p : ℕ) → digit k p ≡ 0 → round k g p ≡ p
round_clear k g p h = if-else (digit k p == 1) (bit_xor p g) p (ground arith)

swap_right : (a b g : ℕ) → bit_xor (bit_xor a g) b ≡ bit_xor (bit_xor a b) g
swap_right a b g = xor_assoc a g b ∙ ap (bit_xor a) (xor_comm g b) ∙ sym (xor_assoc a b g)

both : (a b g : ℕ) → bit_xor (bit_xor a g) (bit_xor b g) ≡ bit_xor a b
both a b g =
    sym (xor_assoc (bit_xor a g) b g)
    ∙ ap (λ (t : ℕ). bit_xor t g) (swap_right a b g)
    ∙ xor_cancel (bit_xor a b) g

round-xor : (k g a b : ℕ) → round k g (bit_xor a b) ≡ bit_xor (round k g a) (round k g b)
round-xor k g a b = elim (ℕ_discrete (digit k a) 1) [
  | yes p ↦ elim (ℕ_discrete (digit k b) 1) [
    | yes q ↦
        round_clear k g (bit_xor a b) (omega (arith, digit-xor k a b))
        ∙ sym (ap₂ bit_xor (round_set k g a p) (round_set k g b q) ∙ both a b g)
    | no q ↦
        round_set k g (bit_xor a b) (omega (arith, digit-xor k a b))
        ∙ sym (ap₂ bit_xor (round_set k g a p) (round_clear k g b (omega arith)) ∙ swap_right a b g)
  ]
  | no p ↦ elim (ℕ_discrete (digit k b) 1) [
    | yes q ↦
        round_set k g (bit_xor a b) (omega (arith, digit-xor k a b))
        ∙ xor_assoc a b g
        ∙ sym (ap₂ bit_xor (round_clear k g a (omega arith)) (round_set k g b q))
    | no q ↦
        round_clear k g (bit_xor a b) (omega (arith, digit-xor k a b))
        ∙ sym (ap₂ bit_xor (round_clear k g a (omega arith)) (round_clear k g b (omega arith)))
  ]
]

pub residue-xor : (n a b : ℕ) → residue n (bit_xor a b) ≡ bit_xor (residue n a) (residue n b)
unfolding residue
residue-xor zero a b = refl
residue-xor (suc n) a b =
    ap (residue n) (round-xor (n + 11) (2 ^ n * genpol) a b)
    ∙ residue-xor n (round (n + 11) (2 ^ n * genpol) a) (round (n + 11) (2 ^ n * genpol) b)
