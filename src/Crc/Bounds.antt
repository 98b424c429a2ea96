-- ===== src/Crc/Bounds.antt =====
-- The registers keep their widths.
use dmrlib.Common.{ℕ, zero, suc, ◌+◌, ◌/◌, ◌%◌, ◌^◌, ◌<◌, arith, Bool, true, false}
use dmrlib.Common.{if◌then◌else◌, ◌==◌, ◌<<<◌, bit_and}
use dmrlib.Common.Xor.{xor-lt}
use dmrlib.Common.Fields.{and_low}
use dmrlib.Crc.{crc9_round, crc9_from, crc9, crc9_finish, first_mask}

-- A choice between two small numbers is small.
choice-lt : (b : Bool) (x y n : ℕ) → x < n → y < n → (if b then x else y) < n
choice-lt true x y n hx hy = hx
choice-lt false x y n hx hy = hy

filled-lt :
    (crc : ℕ) (bit : Bool)
    → (if bit then (bit_and (crc <<< 1) 0x01ff + 1) % 2 ^ 16 else bit_and (crc <<< 1) 0x01ff) < 512
filled-lt crc bit =
    choice-lt bit ((bit_and (crc <<< 1) 0x01ff + 1) % 2 ^ 16) (bit_and (crc <<< 1) 0x01ff) 512
      (omega (arith, and_low 9 (crc <<< 1))) (omega (arith, and_low 9 (crc <<< 1)))

-- One round makes a register of nine bits of any register.
crc9_round-lt : (crc : ℕ) (bit : Bool) → crc9_round crc bit < 512
unfolding crc9_round
crc9_round-lt crc bit =
    choice-lt (bit_and crc 0x0100 == 0x0100) _ _ 512
      (xor-lt 9 _ 0x59 (filled-lt crc bit) (omega arith)) (filled-lt crc bit)

crc9_from-lt : (left v byte crc : ℕ) → crc < 512 → crc9_from left v byte crc < 512
unfolding crc9_from
crc9_from-lt zero v byte crc h = h
crc9_from-lt (suc left) v byte crc h = crc9_from-lt left (v / 2) byte _ (crc9_round-lt crc _)

crc9_finish-lt : (crc left : ℕ) → crc < 512 → crc9_finish crc left < 512
unfolding crc9_finish
crc9_finish-lt crc zero h = h
crc9_finish-lt crc (suc left) h =
    crc9_finish-lt (crc9_round crc false) left (crc9_round-lt crc false)

-- Whatever the register of 16 bits held before, it holds nine bits after a byte, and still does
-- after any number of clearing rounds.
pub crc9_bounds :
    (crc byte bitlen left : ℕ)
    → (crc9 crc byte bitlen < 2 ^ 9) × (crc9_finish (crc9 crc byte bitlen) left < 2 ^ 9)
unfolding crc9
crc9_bounds crc byte bitlen left = (after_byte, crc9_finish-lt _ left after_byte)
  where
    after_byte : crc9_from 8 (first_mask bitlen 0x80) byte crc < 512
    after_byte =
        unfold crc9_from in crc9_from-lt 7 (first_mask bitlen 0x80 / 2) byte _ (crc9_round-lt crc _)
