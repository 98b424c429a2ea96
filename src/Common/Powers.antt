-- ===== src/Common/Powers.antt =====
-- Powers of two and the digits of a number below one.
use Prim.Native.Nat.{ℕ, zero, suc, ◌+◌, ◌-◌, ◌*◌, ◌/◌, ◌^◌, ◌≤◌, ◌<◌}
use mathlib.Core.Path.{◌≡◌, ◌∙◌, ap}
use native.Mathlib.Omega.{arith}
use native.Mathlib.Nat.{pow-suc, one-le-pow}
use dmrlib.Common.Xor.{digit}

pub pow_add : (n k : ℕ) → 2 ^ (n + k) ≡ 2 ^ k * 2 ^ n
pow_add n zero = ap (λ (t : ℕ). 2 ^ t) {x = n + 0} {y = n} (omega arith) ∙ omega arith
pow_add n (suc k) =
    ap (λ (t : ℕ). 2 ^ t) {x = n + suc k} {y = suc (n + k)} (omega arith)
    ∙ pow-suc 2 (n + k)
    ∙ ap (λ (t : ℕ). t * 2) (pow_add n k)
    ∙ omega (arith, ap (λ (t : ℕ). t * 2 ^ n) (pow-suc 2 k))

pub pow_mono : (k m : ℕ) → k ≤ m → 2 ^ k ≤ 2 ^ m
pow_mono zero m h = one-le-pow m 2 (omega arith)
pow_mono (suc k) zero h = absurd (omega arith)
pow_mono (suc k) (suc m) h = omega (arith, pow-suc 2 k, pow-suc 2 m, pow_mono k m (omega arith))

pub div_below : (k p : ℕ) → p < 2 ^ k → p / 2 ^ k ≡ 0
div_below k p h = grind arith

pub digit_above : (k m p : ℕ) → p < 2 ^ k → k ≤ m → digit m p ≡ 0
digit_above k m p h le = omega (arith, div_below m p (omega (arith, pow_mono k m le)))

pub top_clear : (k p : ℕ) → p < 2 ^ suc k → digit k p ≡ 0 → p < 2 ^ k
top_clear k p h e = grind (arith, pow-suc 2 k)

pub half_pow_pred : (m : ℕ) → 0 < m → 2 ^ m / 2 ≡ 2 ^ (m - 1)
half_pow_pred zero h = absurd (omega arith)
half_pow_pred (suc m) h =
    omega (arith, pow-suc 2 m, ap (λ (t : ℕ). 2 ^ t) {x = suc m - 1} {y = m} (omega arith))
