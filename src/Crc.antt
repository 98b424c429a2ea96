-- ===== src/Crc.antt =====
-- src/dmr/crc.c: the shift registers of the three checksums.
pub mod Bounds
mod Tests
use dmrlib.Common.{
  ℕ, zero, suc, ◌+◌, ◌*◌, ◌/◌, ◌%◌, ◌^◌, Bool, false, not, if◌then◌else◌, ◌==◌, ◌<<<◌, bit_and,
  bit_xor,
}

-- One round of `dmr_crc9` with the bit that is shifted in; the increment and the register are of
-- 16 bits.
unfoldable pub crc9_round : ℕ → Bool → ℕ
crc9_round crc bit =
    let shifted = bit_and (crc <<< 1) 0x01ff in
    let filled = if bit then (shifted + 1) % 2 ^ 16 else shifted in
    if bit_and crc 0x0100 == 0x0100 then bit_xor filled 0x59 else filled

-- `left` rounds with the mask `v`.
unfoldable pub crc9_from : ℕ → ℕ → ℕ → ℕ → ℕ
crc9_from zero v byte crc = crc
crc9_from (suc left) v byte crc =
    crc9_from left (v / 2) byte (crc9_round crc (not (bit_and byte v == 0)))

-- The mask `v` before the rounds.
unfoldable pub first_mask : ℕ → ℕ → ℕ
first_mask zero v = v
first_mask (suc left) v = first_mask left (v / 2)

unfoldable pub crc9 : ℕ → ℕ → ℕ → ℕ
crc9 crc byte bitlen = crc9_from 8 (first_mask bitlen 0x80) byte crc

unfoldable pub crc9_finish : ℕ → ℕ → ℕ
crc9_finish crc zero = crc
crc9_finish crc (suc left) = crc9_finish (crc9_round crc false) left

unfoldable pub crc16_round : ℕ → Bool → ℕ
crc16_round crc bit =
    let shifted = (crc <<< 1) % 2 ^ 16 in
    let filled = if bit then (shifted + 1) % 2 ^ 16 else shifted in
    if bit_and crc 0x8000 == 0 then filled else bit_xor filled 0x1021

unfoldable pub crc16_from : ℕ → ℕ → ℕ → ℕ → ℕ
crc16_from zero v byte crc = crc
crc16_from (suc left) v byte crc =
    crc16_from left (v / 2) byte (crc16_round crc (not (bit_and byte v == 0)))

unfoldable pub crc16 : ℕ → ℕ → ℕ
crc16 crc byte = crc16_from 8 0x80 byte crc

-- The rounds that clear the register.
unfoldable pub crc16_clear : ℕ → ℕ → ℕ
crc16_clear zero crc = crc
crc16_clear (suc left) crc = crc16_clear left (crc16_round crc false)

unfoldable pub crc16_finish : ℕ → ℕ
crc16_finish crc = crc16_clear 8 crc

unfoldable pub crc32_round : ℕ → Bool → ℕ
crc32_round crc bit =
    let shifted = (crc <<< 1) % 2 ^ 32 in
    let filled = if bit then (shifted + 1) % 2 ^ 32 else shifted in
    if bit_and crc 0x80000000 == 0x80000000 then bit_xor filled 0x04c11db7 else filled

unfoldable pub crc32_from : ℕ → ℕ → ℕ → ℕ → ℕ
crc32_from zero v byte crc = crc
crc32_from (suc left) v byte crc =
    crc32_from left (v / 2) byte (crc32_round crc (not (bit_and byte v == 0)))

unfoldable pub crc32 : ℕ → ℕ → ℕ
crc32 crc byte = crc32_from 8 0x80 byte crc

unfoldable pub crc32_clear : ℕ → ℕ → ℕ
crc32_clear zero crc = crc
crc32_clear (suc left) crc = crc32_clear left (crc32_round crc false)

unfoldable pub crc32_finish : ℕ → ℕ
crc32_finish crc = crc32_clear 8 crc
