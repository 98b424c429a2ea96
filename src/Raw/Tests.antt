-- ===== src/Raw/Tests.antt =====
-- Concrete buffers that grow.
use dmrlib.Common.{◌≡◌, refl, arith, ◌⊎◌, [], ◌∷◌, fill, drop, true, some, ◌≤◌}
use dmrlib.Error.{done, last_error}
use dmrlib.Raw.{
  Raw, raw_new, raw_add, raw_add_uint, raw_add_uint32_le, raw_add_hex, raw_add_xuint, raw_addf,
  raw_reset, after_grow, raw_grow_add, raw_grow, regrow, print, round_up, raw_zero,
}
use dmrlib.Raw.Sample.{list_memory}
use dmrlib.Raw.Contents.{contents, IsRaw, Refused}
use dmrlib.Raw.Append.{Appends, hex, raw_add-Appends}
use dmrlib.Raw.Digits.{value, value-raw_add_uint, raw_add_uint32_le-Appends, raw_add_hex-Appends}
use dmrlib.Raw.Printed.{raw_add_xuint-Appends, raw_addf-Appends}
use dmrlib.Raw.Fresh.{raw_new-IsRaw, raw_reset-raw_zero}

-- Three bytes in an array of four.
abbrev three : Raw
three = record { buf = 1 ∷ 2 ∷ 3 ∷ 9 ∷ []; allocated = 4; len = 3 }

three-IsRaw : IsRaw three
three-IsRaw = record { size = refl; within = omega arith; small = omega arith }

raw_addf_stale :
    contents (raw_addf list_memory three 3 (0x61 ∷ [])).1 ≡ 1 ∷ 2 ∷ 3 ∷ 0x61 ∷ 0 ∷ 0 ∷ []
unfolding contents raw_addf after_grow raw_grow_add raw_grow regrow print fill round_up
raw_addf_stale = refl

raw_add-Appends_example :
    Appends list_memory three 2 (7 ∷ 8 ∷ []) (raw_add list_memory three (7 ∷ 8 ∷ 9 ∷ []) 2)
raw_add-Appends_example =
    raw_add-Appends list_memory three (7 ∷ 8 ∷ 9 ∷ []) 2 three-IsRaw (omega arith) (omega arith)

value-raw_add_uint_example :
    ((r : Raw) × (raw_add_uint list_memory 3 three 0x123456 ≡ (done, r))
      × IsRaw r
      × (value (drop 3 (contents r)) ≡ 0x123456))
    ⊎ ((raw_add_uint list_memory 3 three 0x123456 ≡ (last_error, three))
        × Refused list_memory three 3)
value-raw_add_uint_example =
    value-raw_add_uint list_memory three 3 0x123456 three-IsRaw (omega arith) (omega arith)

raw_add_uint32_le-Appends_example :
    Appends list_memory three 4
      (0x12 ∷ 0x34 ∷ 0x56 ∷ 0x78 ∷ [])
      (raw_add_uint32_le list_memory three 0x12345678)
raw_add_uint32_le-Appends_example =
    raw_add_uint32_le-Appends list_memory three 0x12345678 three-IsRaw (omega arith) (omega arith)

raw_add_hex-Appends_example :
    Appends list_memory three 4
      (hex list_memory.bhex (0x5a ∷ 0x0f ∷ []))
      (raw_add_hex list_memory three (0x5a ∷ 0x0f ∷ []) 2)
raw_add_hex-Appends_example =
    raw_add_hex-Appends list_memory three (0x5a ∷ 0x0f ∷ []) 2 three-IsRaw (omega arith)
      (omega arith)

raw_add_xuint-Appends_example :
    Appends list_memory three 4
      (0x31 ∷ 0x32 ∷ 0x33 ∷ 0 ∷ [])
      (raw_add_xuint list_memory 4 three (0x31 ∷ 0x32 ∷ 0x33 ∷ 0x34 ∷ []))
raw_add_xuint-Appends_example =
    raw_add_xuint-Appends list_memory 3 (0x31 ∷ 0x32 ∷ 0x33 ∷ 0x34 ∷ []) (omega arith) three
      three-IsRaw (omega arith)

raw_new-IsRaw_example :
    (r : Raw) × (raw_new true true 3 ≡ some r) × IsRaw r × (contents r ≡ []) × (3 ≤ r.allocated)
raw_new-IsRaw_example = raw_new-IsRaw 3 (omega arith)

raw_reset-raw_zero_example :
    (IsRaw (raw_reset list_memory three) × (contents (raw_reset list_memory three) ≡ []))
    × (IsRaw (raw_zero list_memory three)
        × (contents (raw_zero list_memory three) ≡ 0 ∷ 0 ∷ 0 ∷ []))
raw_reset-raw_zero_example = raw_reset-raw_zero list_memory three three-IsRaw

raw_addf-Appends_example :
    Appends list_memory three 3
      (0x61 ∷ 0x62 ∷ [])
      (raw_addf list_memory three 2 (0x61 ∷ 0x62 ∷ 0x63 ∷ []))
raw_addf-Appends_example =
    raw_addf-Appends list_memory three 2 (0x61 ∷ 0x62 ∷ 0x63 ∷ []) three-IsRaw (omega arith)
      (omega arith)
