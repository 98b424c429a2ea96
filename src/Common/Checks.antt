-- ===== src/Common/Checks.antt =====
-- Exhaustive checks over a range of numbers or over all vectors of booleans.
use Prim.Native.Nat.{ℕ, zero, suc, ◌≤◌, ◌<◌}
use mathlib.Core.Path.{◌≡◌, ◌∙◌, ap}
use mathlib.Core.Bool.{Bool, true, false, ◌&&◌}
use mathlib.Core.List.{List, [], ◌∷◌}
use native.Mathlib.Omega.{arith}
use native.Mathlib.Decide.{ℕ_discrete}
use dmrlib.Common.Lists.{length}

pub and-left : (a b : Bool) → (a && b) ≡ true → a ≡ true
and-left a b h = ground arith

pub and-right : (a b : Bool) → (a && b) ≡ true → b ≡ true
and-right a b h = ground arith

unfoldable pub all_below : ℕ → (ℕ → Bool) → Bool
all_below zero test = true
all_below (suc bound) test = all_below bound test && test bound

pub all_below-true :
    (bound : ℕ) (test : ℕ → Bool) (x : ℕ) → all_below bound test ≡ true → x < bound → test x ≡ true
unfolding all_below
all_below-true zero test x passed within = absurd (omega arith)
all_below-true (suc bound) test x passed within = elim (ℕ_discrete x bound) [
  | yes last ↦ ap test last ∙ and-right _ _ passed
  | no earlier ↦ all_below-true bound test x (and-left _ _ passed) (omega arith)
]

unfoldable pub all_bits : ℕ → (List Bool → Bool) → Bool
all_bits zero p = p []
all_bits (suc n) p = all_bits n (λ v. p (true ∷ v)) && all_bits n (λ v. p (false ∷ v))

pub all_bits-true :
    (n : ℕ) (p : List Bool → Bool) (v : List Bool) → all_bits n p ≡ true → length v ≡ n → p v ≡ true
unfolding all_bits
all_bits-true zero p [] h e = h
all_bits-true zero p (x ∷ v) h e = absurd (omega arith)
all_bits-true (suc n) p [] h e = absurd (omega arith)
all_bits-true (suc n) p (true ∷ v) h e =
    all_bits-true n (λ w. p (true ∷ w)) v (and-left _ _ h) (omega arith)
all_bits-true (suc n) p (false ∷ v) h e =
    all_bits-true n (λ w. p (false ∷ w)) v (and-right _ _ h) (omega arith)

-- The elements that are true, and the checks over all vectors with at most `w` of them.
unfoldable pub count_true : List Bool → ℕ
count_true [] = 0
count_true (true ∷ v) = suc (count_true v)
count_true (false ∷ v) = count_true v

unfoldable pub few_bits : ℕ → ℕ → (List Bool → Bool) → Bool
few_bits zero w p = p []
few_bits (suc n) zero p = few_bits n zero (λ v. p (false ∷ v))
few_bits (suc n) (suc w) p =
    few_bits n (suc w) (λ v. p (false ∷ v)) && few_bits n w (λ v. p (true ∷ v))

pub few_bits-true :
    (n w : ℕ) (p : List Bool → Bool) (v : List Bool)
    → few_bits n w p ≡ true
    → length v ≡ n
    → count_true v ≤ w
    → p v ≡ true
unfolding few_bits count_true
few_bits-true zero w p [] h e c = h
few_bits-true zero w p (x ∷ v) h e c = absurd (omega arith)
few_bits-true (suc n) w p [] h e c = absurd (omega arith)
few_bits-true (suc n) zero p (true ∷ v) h e c = absurd (omega arith)
few_bits-true (suc n) zero p (false ∷ v) h e c =
    few_bits-true n zero (λ w. p (false ∷ w)) v h (omega arith) (omega arith)
few_bits-true (suc n) (suc w) p (true ∷ v) h e c =
    few_bits-true n w (λ u. p (true ∷ u)) v (and-right _ _ h) (omega arith) (omega arith)
few_bits-true (suc n) (suc w) p (false ∷ v) h e c =
    few_bits-true n (suc w) (λ u. p (false ∷ u)) v (and-left _ _ h) (omega arith) (omega arith)
