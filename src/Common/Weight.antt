-- ===== src/Common/Weight.antt =====
-- The number of ones among the `k` low bits, and checks over every number of few ones.
use Prim.Native.Nat.{ℕ, zero, suc, ◌+◌, ◌*◌, ◌/◌, ◌%◌, ◌^◌, ◌≤◌, ◌<◌, bit_xor}
use mathlib.Core.Path.{◌≡◌, ◌∙◌, ap, ap₂}
use mathlib.Core.Bool.{Bool, true, ◌&&◌}
use native.Mathlib.Omega.{arith}
use native.Mathlib.Decide.{ℕ_discrete}
use dmrlib.Common.Checks.{and-left, and-right}
use native.Mathlib.Nat.{pow-suc}
use dmrlib.Common.Xor.{bit_xor_step, xor_half}

unfoldable pub weight : ℕ → ℕ → ℕ
weight zero x = 0
weight (suc k) x = x % 2 + weight k (x / 2)

-- `^` makes no ones that neither operand has.
pub weight-xor-le : (k a b : ℕ) → weight k (bit_xor a b) ≤ weight k a + weight k b
unfolding weight
weight-xor-le zero a b = omega arith
weight-xor-le (suc k) a b =
    omega (arith, bit_xor_step a b, ap (weight k) (xor_half a b), weight-xor-le k (a / 2) (b / 2))

weight_cong : (k n x y : ℕ) → k ≡ n → x ≡ y → weight k x ≡ weight n y
weight_cong k n x y p q = ap₂ weight p q

pub weight_fields :
    (k n a b : ℕ) → b < 2 ^ k → weight (k + n) (a * 2 ^ k + b) ≡ weight k b + weight n a
unfolding weight
weight_fields zero n a b h =
    omega (arith, weight_cong (0 + n) n (a * 1 + b) a (omega arith) (omega arith))
weight_fields (suc k) n a b h = omega (
  arith,
  pow-suc 2 k,
  ap (λ (t : ℕ). a * t) (pow-suc 2 k),
  weight_cong (suc k + n) (suc (k + n)) (a * 2 ^ suc k + b) (2 * (a * 2 ^ k) + b) (omega arith)
      (omega (arith, ap (λ (t : ℕ). a * t) (pow-suc 2 k))),
  ap (weight (k + n)) (half k a b),
  weight_fields k n a (b / 2) (omega (arith, pow-suc 2 k)),
)
  where
    half : (k a b : ℕ) → (2 * (a * 2 ^ k) + b) / 2 ≡ a * 2 ^ k + b / 2
    half k a b = omega arith

-- `p (base + s * x)` for every `x` of `k` bits with at most `w` ones.
unfoldable pub light : ℕ → ℕ → ℕ → ℕ → (ℕ → Bool) → Bool
light zero w s base p = p base
light (suc k) zero s base p = light k zero (2 * s) base p
light (suc k) (suc w) s base p = light k (suc w) (2 * s) base p && light k w (2 * s) (base + s) p

even : (s x : ℕ) → x % 2 ≡ 0 → s * x ≡ 2 * (s * (x / 2))
even s x h = omega (arith, ap (λ (t : ℕ). s * t) (half x h))
  where
    half : (x : ℕ) → x % 2 ≡ 0 → x ≡ 2 * (x / 2)
    half x h = omega arith

odd : (s x : ℕ) → x % 2 ≡ 1 → s * x ≡ 2 * (s * (x / 2)) + s
odd s x h = omega (arith, ap (λ (t : ℕ). s * t) (half x h))
  where
    half : (x : ℕ) → x % 2 ≡ 1 → x ≡ 2 * (x / 2) + 1
    half x h = omega arith

pub light-true :
    (k w s base : ℕ) (p : ℕ → Bool) (x : ℕ)
    → light k w s base p ≡ true
    → x < 2 ^ k
    → weight k x ≤ w
    → p (base + s * x) ≡ true
unfolding light weight
light-true zero w s base p x h lt le =
    ap p (omega (arith, ap (λ (t : ℕ). s * t) (none_left x lt))) ∙ h
  where
    none_left : (x : ℕ) → x < 1 → x ≡ 0
    none_left x lt = omega arith
light-true (suc k) zero s base p x h lt le =
    ap p (omega (arith, even s x (omega arith)))
    ∙ light-true k zero (2 * s) base p (x / 2) h (omega (arith, pow-suc 2 k)) (omega arith)
light-true (suc k) (suc w) s base p x h lt le = elim (ℕ_discrete (x % 2) 0) [
  | yes e ↦
      ap p (omega (arith, even s x e))
      ∙ light-true k (suc w) (2 * s) base p (x / 2) (and-left _ _ h) (omega (arith, pow-suc 2 k))
          (omega arith)
  | no ne ↦
      ap p (omega (arith, odd s x (omega arith)))
      ∙ light-true k w (2 * s) (base + s) p (x / 2) (and-right _ _ h) (omega (arith, pow-suc 2 k))
          (omega arith)
]
