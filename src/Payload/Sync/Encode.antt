-- ===== src/Payload/Sync/Encode.antt =====
-- What the encoder of the pattern changes, and that the decoder finds it.
use dmrlib.Common.{ℕ, ◌+◌, ◌-◌, ◌≤◌, ◌<◌, ◌≡◌, ◌≢◌, refl, ap, ◌∙◌, arith}
use dmrlib.Common.{
  Bool, true, ◌⊎◌, List, some, get_or, length, drop, length-fill, get_or-fill_hit, get_or-fill_miss,
}
use dmrlib.Common.{◌==◌, ==_iff, All, All-get_or, all_below, all_below-true, bit_and, bit_or}
use mathlib.Core.Option
use dmrlib.Common.Weight.{weight}
use dmrlib.Bits.Convert.{IsByte, get_or-drop}
use dmrlib.Payload.Sync.{
  SyncPattern, bs_sourced_voice, bs_sourced_data, ms_sourced_voice, ms_sourced_data, ms_sourced_rc,
  direct_voice_ts1, direct_data_ts1, direct_voice_ts2, direct_data_ts2, unknown,
}
use dmrlib.Payload.Sync.{
  pattern_of, sync_pattern_mask, write_pattern, sync_pattern_encode, sync_pattern_decode,
}
use dmrlib.Payload.Sync.Distance.{hamming_distance, differing}
use dmrlib.Payload.Sync.Apart.{bytes_of}
use dmrlib.Payload.Sync.Decode.{sync_pattern_decode_iff}

pattern_of_lem : (q : SyncPattern) → q ≢ unknown → pattern_of q ≡ some (bytes_of q)
unfolding pattern_of bytes_of
pattern_of_lem bs_sourced_voice h = refl
pattern_of_lem bs_sourced_data h = refl
pattern_of_lem ms_sourced_voice h = refl
pattern_of_lem ms_sourced_data h = refl
pattern_of_lem ms_sourced_rc h = refl
pattern_of_lem direct_voice_ts1 h = refl
pattern_of_lem direct_data_ts1 h = refl
pattern_of_lem direct_voice_ts2 h = refl
pattern_of_lem direct_data_ts2 h = refl
pattern_of_lem unknown h = absurd (h refl)

-- Byte `i` of the pattern `v`, written over any byte, is at no distance from it.
written_right : List ℕ → ℕ → Bool
written_right v i = all_below 256 (λ b.
    differing (get_or sync_pattern_mask i 0)
      (bit_or (bit_and b (0xff - get_or sync_pattern_mask i 0)) (get_or v i 0)) (get_or v i 0)
    == 0)

written_table : (q : SyncPattern) → q ≢ unknown → all_below 7 (written_right (bytes_of q)) ≡ true
unfolding all_below written_right differing weight bytes_of
written_table bs_sourced_voice h = refl
written_table bs_sourced_data h = refl
written_table ms_sourced_voice h = refl
written_table ms_sourced_data h = refl
written_table ms_sourced_rc h = refl
written_table direct_voice_ts1 h = refl
written_table direct_data_ts1 h = refl
written_table direct_voice_ts2 h = refl
written_table direct_data_ts2 h = refl
written_table unknown h = absurd (h refl)

-- What round `i` stores.
abbrev written : List ℕ → List ℕ → ℕ → ℕ
written packet v i =
    bit_or (bit_and (get_or packet (i + 13) 0) (0xff - get_or sync_pattern_mask i 0)) (get_or v i 0)

at-write_pattern :
    (packet v : List ℕ) (i : ℕ)
    → 20 ≤ length packet
    → i < 7
    → get_or (drop 13 (write_pattern packet v)) i 0 ≡ written packet v i
unfolding write_pattern
at-write_pattern packet v i room lt =
    get_or-drop 13 i (write_pattern packet v) 0
    ∙ ap (λ t. get_or (write_pattern packet v) t 0) {x = 13 + i} {y = i + 13} (omega arith)
    ∙ get_or-fill_hit (λ i. i + 13) (written packet v) 7 0 i 0 packet (omega arith) (omega arith)
        (omega arith) (λ m l h q. omega arith)

written_near :
    (packet : List ℕ) (q : SyncPattern) (i : ℕ)
    → q ≢ unknown
    → 20 ≤ length packet
    → All IsByte packet
    → i < 7
    → differing
        (get_or sync_pattern_mask i 0)
        (get_or (drop 13 (write_pattern packet (bytes_of q))) i 0)
        (get_or (bytes_of q) i 0)
      ≡ 0
unfolding written_right
written_near packet q i known room small lt =
    ap (λ t. differing (get_or sync_pattern_mask i 0) t (get_or (bytes_of q) i 0))
      (at-write_pattern packet (bytes_of q) i room lt)
    ∙ (==_iff _ 0).0 (
        all_below-true 256 _ (get_or packet (i + 13) 0)
          (all_below-true 7 (written_right (bytes_of q)) i (written_table q known) lt)
          (All-get_or IsByte packet (i + 13) 0 small (omega arith)))

distance_zero :
    (packet : List ℕ) (q : SyncPattern)
    → q ≢ unknown
    → 20 ≤ length packet
    → All IsByte packet
    → hamming_distance (drop 13 (write_pattern packet (bytes_of q))) (bytes_of q) ≡ 0
unfolding hamming_distance
distance_zero packet q known room small = omega (
  arith,
  written_near packet q 0 known room small (omega arith),
  written_near packet q 1 known room small (omega arith),
  written_near packet q 2 known room small (omega arith),
  written_near packet q 3 known room small (omega arith),
  written_near packet q 4 known room small (omega arith),
  written_near packet q 5 known room small (omega arith),
  written_near packet q 6 known room small (omega arith),
)

-- In a packet of at least twenty bytes, the encoder writes every known pattern so that the
-- decoder finds it; it keeps the length and every byte but those from 13 to 19.
pub sync_pattern_decode-encode :
    (packet : List ℕ) (q : SyncPattern)
    → q ≢ unknown
    → 20 ≤ length packet
    → All IsByte packet
    → (sent : List ℕ) × (sync_pattern_encode packet q ≡ some sent)
      × (sync_pattern_decode sent ≡ q)
      × (length sent ≡ length packet)
      × ((k : ℕ) → (k < 13) ⊎ (20 ≤ k) → get_or sent k 0 ≡ get_or packet k 0)
unfolding sync_pattern_encode write_pattern
sync_pattern_decode-encode packet q known room small = (
  write_pattern packet (bytes_of q),
  ap (Option.map (write_pattern packet)) (pattern_of_lem q known),
  (sync_pattern_decode_iff (write_pattern packet (bytes_of q)) q known).1
      (omega (arith, distance_zero packet q known room small)),
  length-fill (λ i. i + 13) (written packet (bytes_of q)) 7 0 packet,
  λ k away.
      get_or-fill_miss (λ i. i + 13) (written packet (bytes_of q)) 7 0 k 0 packet
        (λ j lo hi e. omega arith),
)
