-- ===== src/Common/Xor.antt =====
-- The laws of `^`, `&` and `|` on numbers, from the recursion on binary digits.
use Prim.Native.Nat.{
  ℕ, zero, suc, ◌+◌, ◌*◌, ◌/◌, ◌%◌, ◌^◌, ◌≤◌, ◌<◌, min, max, digits, bitwise, differ,
}
use Prim.Native.Nat.{bit_xor, bit_xor-bitwise, bit_and, bit_and-bitwise, bit_or, bit_or-bitwise}
use mathlib.Core.Path.{◌≡◌, refl, sym, ◌∙◌, ap}
use native.Mathlib.Omega.{arith}
use native.Mathlib.Nat.{pow-suc, div-div-eq-div-mul}

module _ (rest : ℕ → ℕ) (op : ℕ → ℕ → ℕ) where
  digits-zero : (fuel y : ℕ) → digits rest op fuel 0 y ≡ rest y
  digits-zero zero y = refl
  digits-zero (suc fuel) y = refl

  -- Fuel that is enough makes the same digits as any other that is.
  same_digits :
      (x y fuel more : ℕ) → x ≤ fuel → x ≤ more → digits rest op fuel x y ≡ digits rest op more x y
  same_digits zero y fuel more enough also = digits-zero fuel y ∙ sym (digits-zero more y)
  same_digits (suc x) y zero more enough also = absurd (omega arith)
  same_digits (suc x) y (suc fuel) zero enough also = absurd (omega arith)
  same_digits (suc x) y (suc fuel) (suc more) enough also =
      omega (arith, same_digits (suc x / 2) (y / 2) fuel more (omega arith) (omega arith))

  -- The recursion on digits, one digit at a time and without fuel.
  module _ (native : ℕ → ℕ → ℕ) (means : (x y : ℕ) → native x y ≡ bitwise rest op x y)
      (base : (y : ℕ) → rest y ≡ op 0 (y % 2) + 2 * rest (y / 2)) where
    native_step : (x y : ℕ) → native x y ≡ op (x % 2) (y % 2) + 2 * native (x / 2) (y / 2)
    native_step zero y = rw (means 0 y, means 0 (y / 2)) (base y)
    native_step (suc x) y =
        let half = suc x / 2 in
        let settled = same_digits half (y / 2) x half (omega arith) (omega arith) in
        omega (arith, means half (y / 2), settled, means (suc x) y)

differ_of_bits : (x y : ℕ) → x < 2 → y < 2 → differ x y ≡ (x + y) % 2
differ_of_bits zero y p q = omega arith
differ_of_bits (suc zero) zero p q = refl
differ_of_bits (suc zero) (suc zero) p q = refl
differ_of_bits (suc zero) (suc (suc y)) p q = absurd (omega arith)
differ_of_bits (suc (suc x)) y p q = absurd (omega arith)

pub zero-bit_xor : (b : ℕ) → bit_xor 0 b ≡ b
zero-bit_xor = bit_xor-bitwise 0

pub zero-bit_and : (b : ℕ) → bit_and 0 b ≡ 0
zero-bit_and = bit_and-bitwise 0

pub zero-bit_or : (b : ℕ) → bit_or 0 b ≡ b
zero-bit_or = bit_or-bitwise 0

-- The lowest digit of each operation, and what is left of it.
pub bit_and_step : (a b : ℕ) → bit_and a b ≡ min (a % 2) (b % 2) + 2 * bit_and (a / 2) (b / 2)
bit_and_step = native_step (λ y. 0) min bit_and bit_and-bitwise (λ y. omega arith)

pub bit_or_step : (a b : ℕ) → bit_or a b ≡ max (a % 2) (b % 2) + 2 * bit_or (a / 2) (b / 2)
bit_or_step = native_step (λ y. y) max bit_or bit_or-bitwise (λ y. omega arith)

pub bit_xor_step : (a b : ℕ) → bit_xor a b ≡ bit_xor (a / 2) (b / 2) * 2 + (a + b) % 2
bit_xor_step a b = omega (
  arith,
  native_step (λ y. y) differ bit_xor bit_xor-bitwise
      (λ y. omega (arith, differ_of_bits 0 (y % 2) (omega arith) (omega arith))) a b,
  differ_of_bits (a % 2) (b % 2) (omega arith) (omega arith),
)

xor_comm_fuel : (n a b : ℕ) → a ≤ n → b ≤ n → bit_xor a b ≡ bit_xor b a
xor_comm_fuel zero zero zero p q = refl
xor_comm_fuel zero (suc a) b p q = absurd (omega arith)
xor_comm_fuel zero zero (suc b) p q = absurd (omega arith)
xor_comm_fuel (suc n) a b p q = omega (
  arith,
  bit_xor_step a b,
  bit_xor_step b a,
  xor_comm_fuel n (a / 2) (b / 2) (omega arith) (omega arith),
)

pub xor_comm : (a b : ℕ) → bit_xor a b ≡ bit_xor b a
xor_comm a b = xor_comm_fuel (a + b) a b (omega arith) (omega arith)

pub xor_half : (a b : ℕ) → bit_xor a b / 2 ≡ bit_xor (a / 2) (b / 2)
xor_half a b = omega (arith, bit_xor_step a b)

xor_assoc_fuel :
    (n a b c : ℕ) → a ≤ n → b ≤ n → c ≤ n → bit_xor (bit_xor a b) c ≡ bit_xor a (bit_xor b c)
xor_assoc_fuel zero zero b c p q r = simp zero-bit_xor
xor_assoc_fuel zero (suc a) b c p q r = absurd (omega arith)
xor_assoc_fuel (suc n) a b c p q r = omega (
  arith,
  bit_xor_step (bit_xor a b) c,
  bit_xor_step a (bit_xor b c),
  bit_xor_step a b,
  bit_xor_step b c,
  ap (λ (t : ℕ). bit_xor t (c / 2)) (xor_half a b),
  ap (λ (t : ℕ). bit_xor (a / 2) t) (xor_half b c),
  xor_assoc_fuel n (a / 2) (b / 2) (c / 2) (omega arith) (omega arith) (omega arith),
)

pub xor_assoc : (a b c : ℕ) → bit_xor (bit_xor a b) c ≡ bit_xor a (bit_xor b c)
xor_assoc a b c = xor_assoc_fuel (a + b + c) a b c (omega arith) (omega arith) (omega arith)

xor_self_fuel : (n a : ℕ) → a ≤ n → bit_xor a a ≡ 0
xor_self_fuel zero zero p = refl
xor_self_fuel zero (suc a) p = absurd (omega arith)
xor_self_fuel (suc n) a p = omega (arith, bit_xor_step a a, xor_self_fuel n (a / 2) (omega arith))

pub xor_self : (a : ℕ) → bit_xor a a ≡ 0
xor_self a = xor_self_fuel a a (omega arith)

pub xor-zero : (a : ℕ) → bit_xor a 0 ≡ a
xor-zero a = xor_comm a 0 ∙ zero-bit_xor a

-- A mask applied twice is undone.
pub xor_cancel : (a b : ℕ) → bit_xor (bit_xor a b) b ≡ a
xor_cancel a b = xor_assoc a b b ∙ ap (bit_xor a) (xor_self b) ∙ xor-zero a

pub xor_injective : (a b c : ℕ) → bit_xor a c ≡ bit_xor b c → a ≡ b
xor_injective a b c e = sym (xor_cancel a c) ∙ ap (λ (t : ℕ). bit_xor t c) e ∙ xor_cancel b c

pub xor_eq_zero : (a b : ℕ) → bit_xor a b ≡ 0 → a ≡ b
xor_eq_zero a b e = xor_injective a b b (e ∙ sym (xor_self b))

-- Digit `k` of a number.
abbrev pub digit : ℕ → ℕ → ℕ
digit k x = x / 2 ^ k % 2

pub half_pow : (k x : ℕ) → x / 2 / 2 ^ k ≡ x / 2 ^ suc k
half_pow k x = div-div-eq-div-mul x 2 (2 ^ k) ∙ ap (λ (t : ℕ). x / t) (omega (arith, pow-suc 2 k))

pub digit-xor : (k a b : ℕ) → digit k (bit_xor a b) ≡ (digit k a + digit k b) % 2
digit-xor zero a b = omega (arith, bit_xor_step a b)
digit-xor (suc k) a b = omega (
  arith,
  digit-xor k (a / 2) (b / 2),
  half_pow k a,
  half_pow k b,
  half_pow k (bit_xor a b),
  ap (λ (t : ℕ). t / 2 ^ k) (xor_half a b),
)

pub xor-lt : (k a b : ℕ) → a < 2 ^ k → b < 2 ^ k → bit_xor a b < 2 ^ k
xor-lt zero zero zero p q = omega arith
xor-lt zero (suc a) b p q = absurd (omega arith)
xor-lt zero zero (suc b) p q = absurd (omega arith)
xor-lt (suc k) a b p q = omega (
  arith,
  pow-suc 2 k,
  bit_xor_step a b,
  xor-lt k (a / 2) (b / 2) (omega (arith, pow-suc 2 k)) (omega (arith, pow-suc 2 k)),
)
