-- ===== src/Payload/Sync/Tables.antt =====
-- The tables of src/dmr/payload/sync.c.
use dmrlib.Common.{ℕ, List, [], ◌∷◌}

abbrev pub pattern_bs_sourced_voice : List ℕ
pattern_bs_sourced_voice = 0x07 ∷ 0x55 ∷ 0xFD ∷ 0x7D ∷ 0xF7 ∷ 0x5F ∷ 0x70 ∷ []

abbrev pub pattern_bs_sourced_data : List ℕ
pattern_bs_sourced_data = 0x0D ∷ 0xFF ∷ 0x57 ∷ 0xD7 ∷ 0x5D ∷ 0xF5 ∷ 0xD0 ∷ []

abbrev pub pattern_ms_sourced_voice : List ℕ
pattern_ms_sourced_voice = 0x07 ∷ 0xF7 ∷ 0xD5 ∷ 0xDD ∷ 0x57 ∷ 0xDF ∷ 0xD0 ∷ []

abbrev pub pattern_ms_sourced_data : List ℕ
pattern_ms_sourced_data = 0x0D ∷ 0x5D ∷ 0x7F ∷ 0x77 ∷ 0xFD ∷ 0x75 ∷ 0x70 ∷ []

abbrev pub pattern_ms_sourced_rc : List ℕ
pattern_ms_sourced_rc = 0x07 ∷ 0x7D ∷ 0x55 ∷ 0xF7 ∷ 0xDF ∷ 0xD7 ∷ 0x70 ∷ []

abbrev pub pattern_direct_voice_ts1 : List ℕ
pattern_direct_voice_ts1 = 0x05 ∷ 0xD5 ∷ 0x77 ∷ 0xF7 ∷ 0x75 ∷ 0x7F ∷ 0xF0 ∷ []

abbrev pub pattern_direct_data_ts1 : List ℕ
pattern_direct_data_ts1 = 0x0F ∷ 0x7F ∷ 0xDD ∷ 0x5D ∷ 0xDF ∷ 0xD5 ∷ 0x50 ∷ []

abbrev pub pattern_direct_voice_ts2 : List ℕ
pattern_direct_voice_ts2 = 0x07 ∷ 0xDF ∷ 0xFD ∷ 0x5F ∷ 0x55 ∷ 0xD5 ∷ 0xF0 ∷ []

abbrev pub pattern_direct_data_ts2 : List ℕ
pattern_direct_data_ts2 = 0x0D ∷ 0x75 ∷ 0x57 ∷ 0xF5 ∷ 0xFF ∷ 0x7F ∷ 0x50 ∷ []

abbrev pub sync_pattern_mask : List ℕ
sync_pattern_mask = 0x0F ∷ 0xFF ∷ 0xFF ∷ 0xFF ∷ 0xFF ∷ 0xFF ∷ 0xF0 ∷ []

unfoldable pub sync_bits : List ℕ
sync_bits =
    0 ∷ 1 ∷ 1 ∷ 2 ∷ 1 ∷ 2 ∷ 2 ∷ 3 ∷ 1 ∷ 2 ∷ 2 ∷ 3 ∷ 2 ∷ 3 ∷ 3 ∷ 4 ∷ 1 ∷ 2 ∷ 2 ∷ 3 ∷ 2 ∷ 3 ∷ 3 ∷ 4
    ∷ 2 ∷ 3 ∷ 3 ∷ 4 ∷ 3 ∷ 4 ∷ 4 ∷ 5 ∷ 1 ∷ 2 ∷ 2 ∷ 3 ∷ 2 ∷ 3 ∷ 3 ∷ 4 ∷ 2 ∷ 3 ∷ 3 ∷ 4 ∷ 3 ∷ 4 ∷ 4 ∷ 5
    ∷ 2 ∷ 3 ∷ 3 ∷ 4 ∷ 3 ∷ 4 ∷ 4 ∷ 5 ∷ 3 ∷ 4 ∷ 4 ∷ 5 ∷ 4 ∷ 5 ∷ 5 ∷ 6 ∷ 1 ∷ 2 ∷ 2 ∷ 3 ∷ 2 ∷ 3 ∷ 3 ∷ 4
    ∷ 2 ∷ 3 ∷ 3 ∷ 4 ∷ 3 ∷ 4 ∷ 4 ∷ 5 ∷ 2 ∷ 3 ∷ 3 ∷ 4 ∷ 3 ∷ 4 ∷ 4 ∷ 5 ∷ 3 ∷ 4 ∷ 4 ∷ 5 ∷ 4 ∷ 5 ∷ 5 ∷ 6
    ∷ 2 ∷ 3 ∷ 3 ∷ 4 ∷ 3 ∷ 4 ∷ 4 ∷ 5 ∷ 3 ∷ 4 ∷ 4 ∷ 5 ∷ 4 ∷ 5 ∷ 5 ∷ 6 ∷ 3 ∷ 4 ∷ 4 ∷ 5 ∷ 4 ∷ 5 ∷ 5 ∷ 6
    ∷ 4 ∷ 5 ∷ 5 ∷ 6 ∷ 5 ∷ 6 ∷ 6 ∷ 7 ∷ 1 ∷ 2 ∷ 2 ∷ 3 ∷ 2 ∷ 3 ∷ 3 ∷ 4 ∷ 2 ∷ 3 ∷ 3 ∷ 4 ∷ 3 ∷ 4 ∷ 4 ∷ 5
    ∷ 2 ∷ 3 ∷ 3 ∷ 4 ∷ 3 ∷ 4 ∷ 4 ∷ 5 ∷ 3 ∷ 4 ∷ 4 ∷ 5 ∷ 4 ∷ 5 ∷ 5 ∷ 6 ∷ 2 ∷ 3 ∷ 3 ∷ 4 ∷ 3 ∷ 4 ∷ 4 ∷ 5
    ∷ 3 ∷ 4 ∷ 4 ∷ 5 ∷ 4 ∷ 5 ∷ 5 ∷ 6 ∷ 3 ∷ 4 ∷ 4 ∷ 5 ∷ 4 ∷ 5 ∷ 5 ∷ 6 ∷ 4 ∷ 5 ∷ 5 ∷ 6 ∷ 5 ∷ 6 ∷ 6 ∷ 7
    ∷ 2 ∷ 3 ∷ 3 ∷ 4 ∷ 3 ∷ 4 ∷ 4 ∷ 5 ∷ 3 ∷ 4 ∷ 4 ∷ 5 ∷ 4 ∷ 5 ∷ 5 ∷ 6 ∷ 3 ∷ 4 ∷ 4 ∷ 5 ∷ 4 ∷ 5 ∷ 5 ∷ 6
    ∷ 4 ∷ 5 ∷ 5 ∷ 6 ∷ 5 ∷ 6 ∷ 6 ∷ 7 ∷ 3 ∷ 4 ∷ 4 ∷ 5 ∷ 4 ∷ 5 ∷ 5 ∷ 6 ∷ 4 ∷ 5 ∷ 5 ∷ 6 ∷ 5 ∷ 6 ∷ 6 ∷ 7
    ∷ 4 ∷ 5 ∷ 5 ∷ 6 ∷ 5 ∷ 6 ∷ 6 ∷ 7 ∷ 5 ∷ 6 ∷ 6 ∷ 7 ∷ 6 ∷ 7 ∷ 7 ∷ 8 ∷ []
