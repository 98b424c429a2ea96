-- ===== src/Fec/Rs/Field.antt =====
-- The logarithm tables multiply in the field of 256 elements.
use dmrlib.Common.{ℕ, zero, suc, ◌*◌, ◌/◌, ◌%◌, ◌<◌, ◌≡◌, refl, true}
use dmrlib.Common.{◌==◌, ==_iff, ltb, if◌then◌else◌, bit_xor, all_below, all_below-true}
use dmrlib.Fec.Rs.{gmult}

-- Multiplication by `x` modulo `x^8 + x^4 + x^3 + x^2 + 1`.
times_x : ℕ → ℕ
times_x a = if ltb a 128 then a * 2 else bit_xor (a * 2) 0x11d

-- Schoolbook multiplication, one digit of `b` a round.
field_mul_from : ℕ → ℕ → ℕ → ℕ
field_mul_from zero a b = 0
field_mul_from (suc k) a b =
    bit_xor (if b % 2 == 1 then a else 0) (field_mul_from k (times_x a) (b / 2))

unfoldable pub field_mul : ℕ → ℕ → ℕ
unfolding field_mul_from times_x
field_mul a b = field_mul_from 8 a b

field_table : all_below 256 (λ a. all_below 256 (λ b. gmult a b == field_mul a b)) ≡ true
unfolding all_below gmult field_mul
field_table = refl

-- For all bytes the product from the tables is that of polynomials modulo the field's polynomial.
pub gmult-field_mul : (a b : ℕ) → a < 256 → b < 256 → gmult a b ≡ field_mul a b
gmult-field_mul a b h k = (==_iff _ _).0 (
    all_below-true 256 (λ b. gmult a b == field_mul a b) b
      (all_below-true 256 (λ a. all_below 256 (λ b. gmult a b == field_mul a b)) a field_table h) k)
