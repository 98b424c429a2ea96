-- ===== src/Common/Fields.antt =====
-- Bit fields: masks, shifts and disjoint `|` as arithmetic, and `^` field by field.
use Prim.Native.Nat.{ℕ, zero, suc, ◌+◌, ◌-◌, ◌*◌, ◌/◌, ◌%◌, ◌^◌, ◌≤◌, ◌<◌, bit_and, bit_or, bit_xor}
use mathlib.Core.Path.{◌≡◌, refl, sym, ◌∙◌, ap}
use native.Mathlib.Omega.{arith}
use native.Mathlib.Nat.{pow-suc, one-le-pow}
use dmrlib.Common.Xor.{bit_xor_step, bit_and_step, bit_or_step, zero-bit_and}
use dmrlib.Common.Xor.{digit, half_pow, xor_half}

and-zero_fuel : (n a : ℕ) → a ≤ n → bit_and a 0 ≡ 0
and-zero_fuel zero zero p = refl
and-zero_fuel zero (suc a) p = absurd (omega arith)
and-zero_fuel (suc n) a p = omega (arith, bit_and_step a 0, and-zero_fuel n (a / 2) (omega arith))

pub and-zero : (a : ℕ) → bit_and a 0 ≡ 0
and-zero a = and-zero_fuel a a (omega arith)

and_comm_fuel : (n a b : ℕ) → a ≤ n → b ≤ n → bit_and a b ≡ bit_and b a
and_comm_fuel zero zero zero p q = refl
and_comm_fuel zero (suc a) b p q = absurd (omega arith)
and_comm_fuel zero zero (suc b) p q = absurd (omega arith)
and_comm_fuel (suc n) a b p q = omega (
  arith,
  bit_and_step a b,
  bit_and_step b a,
  and_comm_fuel n (a / 2) (b / 2) (omega arith) (omega arith),
)

pub and_comm : (a b : ℕ) → bit_and a b ≡ bit_and b a
and_comm a b = and_comm_fuel (a + b) a b (omega arith) (omega arith)

or-zero_fuel : (n a : ℕ) → a ≤ n → bit_or a 0 ≡ a
or-zero_fuel zero zero p = refl
or-zero_fuel zero (suc a) p = absurd (omega arith)
or-zero_fuel (suc n) a p = omega (arith, bit_or_step a 0, or-zero_fuel n (a / 2) (omega arith))

pub or-zero : (a : ℕ) → bit_or a 0 ≡ a
or-zero a = or-zero_fuel a a (omega arith)

twice_pow : (m k : ℕ) → m * 2 ^ suc k ≡ 2 * (m * 2 ^ k)
twice_pow m k = omega (arith, ap (λ (t : ℕ). m * t) (pow-suc 2 k))

half_fields : (k a b : ℕ) → (a * 2 ^ suc k + b) / 2 ≡ a * 2 ^ k + b / 2
half_fields k a b = omega (arith, twice_pow a k)

half_zero : (a k : ℕ) → a * 2 ^ suc k / 2 ≡ a * 2 ^ k
half_zero a k = omega (arith, twice_pow a k)

-- `(a << k) | b` is a sum when `b` has `k` bits.
pub or_fields : (k a b : ℕ) → b < 2 ^ k → bit_or (a * 2 ^ k) b ≡ a * 2 ^ k + b
or_fields zero a zero h = omega (arith, or-zero (a * 1))
or_fields zero a (suc b) h = absurd (omega arith)
or_fields (suc k) a b h = omega (
  arith,
  bit_or_step (a * 2 ^ suc k) b,
  ap (λ (t : ℕ). bit_or t (b / 2)) (half_zero a k),
  or_fields k a (b / 2) (omega (arith, pow-suc 2 k)),
  twice_pow a k,
)

half_mask : (k : ℕ) → (2 ^ suc k - 1) / 2 ≡ 2 ^ k - 1
half_mask k = omega (arith, pow-suc 2 k, one-le-pow k 2)

and_low_fields : (k q r : ℕ) → r < 2 ^ k → bit_and (q * 2 ^ k + r) (2 ^ k - 1) ≡ r
and_low_fields zero q r h = omega (arith, and-zero (q * 1 + r))
and_low_fields (suc k) q r h = omega (
  arith,
  bit_and_step (q * 2 ^ suc k + r) (2 ^ suc k - 1),
  ap (λ (t : ℕ). bit_and ((q * 2 ^ suc k + r) / 2) t) (half_mask k),
  ap (λ (t : ℕ). bit_and t (2 ^ k - 1)) (half_fields k q r),
  and_low_fields k q (r / 2) (omega (arith, pow-suc 2 k)),
  pow-suc 2 k,
  one-le-pow k 2,
  twice_pow q k,
)

-- The mask of the `k` low bits is the remainder.
pub and_low : (k a : ℕ) → bit_and a (2 ^ k - 1) ≡ a % 2 ^ k
and_low k a =
    ap (λ (t : ℕ). bit_and t (2 ^ k - 1)) (split k a)
    ∙ and_low_fields k (a / 2 ^ k) (a % 2 ^ k) (omega (arith, one-le-pow k 2))
  where
    split : (k a : ℕ) → a ≡ a / 2 ^ k * 2 ^ k + a % 2 ^ k
    split k a = omega (arith, one-le-pow k 2)

times_one : (m : ℕ) → m * 1 ≡ m
times_one m = omega arith

over_one : (m : ℕ) → m / 1 ≡ m
over_one m = omega arith

-- A mask shifted left masks what is left of a shift right.
pub and_shift : (k a m : ℕ) → bit_and a (m * 2 ^ k) ≡ bit_and (a / 2 ^ k) m * 2 ^ k
and_shift zero a m =
    omega
      (arith, ap (λ (t : ℕ). bit_and a t) (times_one m), ap (λ (t : ℕ). bit_and t m) (over_one a))
and_shift (suc k) a m = omega (
  arith,
  bit_and_step a (m * 2 ^ suc k),
  ap (λ (t : ℕ). bit_and (a / 2) t) (half_zero m k),
  and_shift k (a / 2) m,
  ap (λ (t : ℕ). bit_and t m * 2 ^ k) (half_pow k a),
  ap (λ (t : ℕ). bit_and (a / 2 ^ suc k) m * t) (pow-suc 2 k),
  twice_pow m k,
)

pub and-one : (a : ℕ) → bit_and a 1 ≡ a % 2
and-one a = and_low 1 a

-- One flag, as it is tested in C.
pub and-pow : (k a : ℕ) → bit_and a (2 ^ k) ≡ digit k a * 2 ^ k
and-pow k a =
    ap (bit_and a) (unit k) ∙ and_shift k a 1 ∙ ap (λ (t : ℕ). t * 2 ^ k) (and-one (a / 2 ^ k))
  where
    unit : (k : ℕ) → 2 ^ k ≡ 1 * 2 ^ k
    unit k = omega arith

pub xor_shift : (k a b : ℕ) → bit_xor a b / 2 ^ k ≡ bit_xor (a / 2 ^ k) (b / 2 ^ k)
xor_shift zero a b =
    over_one (bit_xor a b)
    ∙ sym (ap (λ (t : ℕ). bit_xor t (b / 1)) (over_one a) ∙ ap (bit_xor a) (over_one b))
xor_shift (suc k) a b =
    sym (half_pow k (bit_xor a b))
    ∙ ap (λ (t : ℕ). t / 2 ^ k) (xor_half a b)
    ∙ xor_shift k (a / 2) (b / 2)
    ∙ ap (λ (t : ℕ). bit_xor t (b / 2 / 2 ^ k)) (half_pow k a)
    ∙ ap (λ (t : ℕ). bit_xor (a / 2 ^ suc k) t) (half_pow k b)

pub xor_fields :
    (k a b c d : ℕ)
    → b < 2 ^ k
    → d < 2 ^ k
    → bit_xor (a * 2 ^ k + b) (c * 2 ^ k + d) ≡ bit_xor a c * 2 ^ k + bit_xor b d
xor_fields zero a zero c zero h g =
    omega (arith, ap (λ (t : ℕ). bit_xor t (c * 1 + 0)) (one a), ap (bit_xor a) (one c))
  where
    one : (m : ℕ) → m * 1 + 0 ≡ m
    one m = omega arith
xor_fields zero a (suc b) c d h g = absurd (omega arith)
xor_fields zero a zero c (suc d) h g = absurd (omega arith)
xor_fields (suc k) a b c d h g = omega (
  arith,
  bit_xor_step (a * 2 ^ suc k + b) (c * 2 ^ suc k + d),
  bit_xor_step b d,
  ap (λ (t : ℕ). bit_xor t ((c * 2 ^ suc k + d) / 2)) (half_fields k a b),
  ap (λ (t : ℕ). bit_xor (a * 2 ^ k + b / 2) t) (half_fields k c d),
  xor_fields k a (b / 2) c (d / 2) (omega (arith, pow-suc 2 k)) (omega (arith, pow-suc 2 k)),
  twice_pow (bit_xor a c) k,
  twice_pow a k,
  twice_pow c k,
)

and_xor_fuel : (n m a b : ℕ) → m ≤ n → bit_and m (bit_xor a b) ≡ bit_xor (bit_and m a) (bit_and m b)
and_xor_fuel zero zero a b p = rw (zero-bit_and (bit_xor a b), zero-bit_and a, zero-bit_and b) refl
and_xor_fuel zero (suc m) a b p = absurd (omega arith)
and_xor_fuel (suc n) m a b p = omega (
  arith,
  bit_and_step m (bit_xor a b),
  bit_and_step m a,
  bit_and_step m b,
  bit_xor_step a b,
  bit_xor_step (bit_and m a) (bit_and m b),
  ap (bit_and (m / 2)) (xor_half a b),
  ap (λ (t : ℕ). bit_xor t (bit_and m b / 2)) (and_half m a),
  ap (bit_xor (bit_and (m / 2) (a / 2))) (and_half m b),
  and_xor_fuel n (m / 2) (a / 2) (b / 2) (omega arith),
)
  where
    and_half : (a b : ℕ) → bit_and a b / 2 ≡ bit_and (a / 2) (b / 2)
    and_half a b = omega (arith, bit_and_step a b)

-- A mask goes over `^`.
pub and_xor : (m a b : ℕ) → bit_and m (bit_xor a b) ≡ bit_xor (bit_and m a) (bit_and m b)
and_xor m a b = and_xor_fuel m m a b (omega arith)

and-le_fuel : (n m a : ℕ) → m ≤ n → bit_and m a ≤ m
and-le_fuel zero zero a p = omega (arith, zero-bit_and a)
and-le_fuel zero (suc m) a p = absurd (omega arith)
and-le_fuel (suc n) m a p =
    omega (arith, bit_and_step m a, and-le_fuel n (m / 2) (a / 2) (omega arith))

pub and-le : (m a : ℕ) → bit_and m a ≤ m
and-le m a = and-le_fuel m m a (omega arith)
