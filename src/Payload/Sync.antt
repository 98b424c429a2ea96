-- ===== src/Payload/Sync.antt =====
-- src/dmr/payload/sync.c: the synchronisation pattern in the middle of a packet.
mod Tables
pub mod Distance
pub mod Apart
pub mod Decode
pub mod Encode
mod Tests
use dmrlib.Common.{ℕ, zero, suc, ◌+◌, ◌-◌, Bool, List, Option, none, some}
use mathlib.Core.Option
use dmrlib.Common.{ltb, if◌then◌else◌, get_or, drop, fill, bit_and, bit_or, bit_xor, u8}
unfoldable pub use Tables.*

pub data SyncPattern : Type 0 where
  bs_sourced_voice bs_sourced_data ms_sourced_voice ms_sourced_data ms_sourced_rc direct_voice_ts1
        direct_data_ts1 direct_voice_ts2 direct_data_ts2 unknown :
      SyncPattern

abbrev pub sync_delta_max : ℕ
sync_delta_max = 4

-- `left` rounds of the loop of `dmr_bit_diff`.
unfoldable pub bit_diff_from : List ℕ → List ℕ → ℕ → ℕ → ℕ → ℕ
bit_diff_from a b zero i delta = delta
bit_diff_from a b (suc left) i delta =
    let j = bit_and (get_or sync_pattern_mask i 0) (bit_xor (get_or a i 0) (get_or b i 0)) in
    bit_diff_from a b left (i + 1) (u8 (delta + get_or sync_bits j 0))

unfoldable pub bit_diff : List ℕ → List ℕ → ℕ
unfolding bit_diff_from
bit_diff a b = bit_diff_from a b 7 0 0

-- The tests in their order, on the seven bytes behind `packet + 13`.
unfoldable pub closest : List ℕ → SyncPattern
closest buf =
    if ltb (bit_diff buf pattern_bs_sourced_voice) sync_delta_max
    then bs_sourced_voice
    else (if ltb (bit_diff buf pattern_bs_sourced_data) sync_delta_max
        then bs_sourced_data
        else (if ltb (bit_diff buf pattern_ms_sourced_voice) sync_delta_max
            then ms_sourced_voice
            else (if ltb (bit_diff buf pattern_ms_sourced_data) sync_delta_max
                then ms_sourced_data
                else (if ltb (bit_diff buf pattern_ms_sourced_rc) sync_delta_max
                    then ms_sourced_rc
                    else (if ltb (bit_diff buf pattern_direct_voice_ts1) sync_delta_max
                        then direct_voice_ts1
                        else (if ltb (bit_diff buf pattern_direct_data_ts1) sync_delta_max
                            then direct_data_ts1
                            else (if ltb (bit_diff buf pattern_direct_voice_ts2) sync_delta_max
                                then direct_voice_ts2
                                else (if ltb (bit_diff buf pattern_direct_data_ts2) sync_delta_max
                                    then direct_data_ts2
                                    else (unknown)))))))))

unfoldable pub sync_pattern_decode : List ℕ → SyncPattern
sync_pattern_decode packet = closest (drop 13 packet)

-- The table that the switch of the encoder chooses.
unfoldable pub pattern_of : SyncPattern → Option (List ℕ)
pattern_of bs_sourced_voice = some pattern_bs_sourced_voice
pattern_of bs_sourced_data = some pattern_bs_sourced_data
pattern_of ms_sourced_voice = some pattern_ms_sourced_voice
pattern_of ms_sourced_data = some pattern_ms_sourced_data
pattern_of ms_sourced_rc = some pattern_ms_sourced_rc
pattern_of direct_voice_ts1 = some pattern_direct_voice_ts1
pattern_of direct_data_ts1 = some pattern_direct_data_ts1
pattern_of direct_voice_ts2 = some pattern_direct_voice_ts2
pattern_of direct_data_ts2 = some pattern_direct_data_ts2
pattern_of unknown = none

-- The loop of the encoder. Round `i` reads and writes place `i + 13` only; `0xff - m` is the low
-- byte of `~m`.
unfoldable pub write_pattern : List ℕ → List ℕ → List ℕ
unfolding fill
write_pattern packet sync_pattern =
    fill 7 0 (λ i. i + 13)
      (λ i.
        bit_or (bit_and (get_or packet (i + 13) 0) (0xff - get_or sync_pattern_mask i 0))
          (get_or sync_pattern i 0))
      packet

-- `none` is the return of -1, which leaves the packet as it is.
unfoldable pub sync_pattern_encode : List ℕ → SyncPattern → Option (List ℕ)
sync_pattern_encode packet pattern = Option.map (write_pattern packet) (pattern_of pattern)
