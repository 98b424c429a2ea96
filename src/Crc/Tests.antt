-- ===== src/Crc/Tests.antt =====
-- The registers on concrete bytes.
use dmrlib.Common.{◌^◌, ◌<◌, ◌≡◌, refl}
use dmrlib.Crc.{crc9, crc9_finish, crc16, crc16_from, crc16_round}
use dmrlib.Crc.Bounds.{crc9_bounds}

crc16_word : crc16 0x8001 0x5a ≡ 0x90d2
unfolding crc16 crc16_from crc16_round
crc16_word = refl

crc9_bounds_example : (crc9 0xffff 0x5a 1 < 2 ^ 9) × (crc9_finish (crc9 0xffff 0x5a 1) 9 < 2 ^ 9)
crc9_bounds_example = crc9_bounds 0xffff 0x5a 1 9
