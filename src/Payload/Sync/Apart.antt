-- ===== src/Payload/Sync/Apart.antt =====
-- The patterns differ from each other at many places.
use dmrlib.Common.{ℕ, ◌≤◌, ◌<◌, ◌≡◌, ◌≢◌, refl, subst, arith}
use dmrlib.Common.{true, ◌||◌, List, [], ◌∷◌, get_or, ◌==◌, ltb, all_below, all_below-true}
use dmrlib.Payload.Sync.{
  SyncPattern, bs_sourced_voice, bs_sourced_data, ms_sourced_voice, ms_sourced_data, ms_sourced_rc,
  direct_voice_ts1, direct_data_ts1, direct_voice_ts2, direct_data_ts2, unknown,
}
use dmrlib.Payload.Sync.{bit_diff}
use dmrlib.Payload.Sync.{
  pattern_bs_sourced_voice, pattern_bs_sourced_data, pattern_ms_sourced_voice,
  pattern_ms_sourced_data, pattern_ms_sourced_rc, pattern_direct_voice_ts1, pattern_direct_data_ts1,
  pattern_direct_voice_ts2, pattern_direct_data_ts2,
}
use dmrlib.Payload.Sync.Distance.{
  hamming_distance, hamming_distance-triangle, bit_diff-hamming_distance, differing,
}
use dmrlib.Common.Weight.{weight}

-- The value of the enumeration's constant.
unfoldable pub code : SyncPattern → ℕ
code bs_sourced_voice = 0
code bs_sourced_data = 1
code ms_sourced_voice = 2
code ms_sourced_data = 3
code ms_sourced_rc = 4
code direct_voice_ts1 = 5
code direct_data_ts1 = 6
code direct_voice_ts2 = 7
code direct_data_ts2 = 8
code unknown = 9

-- The bytes of a pattern; of `unknown`, which has none, they are not used.
unfoldable pub bytes_of : SyncPattern → List ℕ
bytes_of bs_sourced_voice = pattern_bs_sourced_voice
bytes_of bs_sourced_data = pattern_bs_sourced_data
bytes_of ms_sourced_voice = pattern_ms_sourced_voice
bytes_of ms_sourced_data = pattern_ms_sourced_data
bytes_of ms_sourced_rc = pattern_ms_sourced_rc
bytes_of direct_voice_ts1 = pattern_direct_voice_ts1
bytes_of direct_data_ts1 = pattern_direct_data_ts1
bytes_of direct_voice_ts2 = pattern_direct_voice_ts2
bytes_of direct_data_ts2 = pattern_direct_data_ts2
bytes_of unknown = []

abbrev all_patterns : List (List ℕ)
all_patterns =
    pattern_bs_sourced_voice ∷ pattern_bs_sourced_data ∷ pattern_ms_sourced_voice
    ∷ pattern_ms_sourced_data ∷ pattern_ms_sourced_rc ∷ pattern_direct_voice_ts1
    ∷ pattern_direct_data_ts1 ∷ pattern_direct_voice_ts2 ∷ pattern_direct_data_ts2 ∷ []

far_apart :
    all_below 9 (λ i. all_below 9 (λ j.
      (i == j) || ltb 7 (hamming_distance (get_or all_patterns i []) (get_or all_patterns j []))))
    ≡ true
unfolding all_below hamming_distance differing weight
far_apart = refl

code_lem : (q : SyncPattern) → code q < 9 → get_or all_patterns (code q) [] ≡ bytes_of q
unfolding code bytes_of
code_lem bs_sourced_voice h = refl
code_lem bs_sourced_data h = refl
code_lem ms_sourced_voice h = refl
code_lem ms_sourced_data h = refl
code_lem ms_sourced_rc h = refl
code_lem direct_voice_ts1 h = refl
code_lem direct_data_ts1 h = refl
code_lem direct_voice_ts2 h = refl
code_lem direct_data_ts2 h = refl
code_lem unknown h = absurd (omega arith)

separated :
    (q r : SyncPattern)
    → code q < 9
    → code r < 9
    → code q ≢ code r
    → 8 ≤ hamming_distance (bytes_of q) (bytes_of r)
separated q r hq hr ne =
    let row = all_below-true 9 _ (code q) far_apart hq in
    let cell =
      all_below-true 9
        (λ j.
          (code q == j)
          || ltb 7 (hamming_distance (get_or all_patterns (code q) []) (get_or all_patterns j [])))
        (code r) row hr in
    subst (λ t. 8 ≤ hamming_distance t (bytes_of r)) (code_lem q hq)
      (subst (λ t. 8 ≤ hamming_distance (get_or all_patterns (code q) []) t) (code_lem r hr)
        (ground arith))

-- A word that is near one pattern is far from every other one.
others :
    (buf : List ℕ) (q r : SyncPattern)
    → code q < 9
    → code r < 9
    → code q ≢ code r
    → bit_diff buf (bytes_of q) < 4
    → 4 ≤ bit_diff buf (bytes_of r)
others buf q r hq hr ne near = omega (
  arith,
  separated q r hq hr ne,
  hamming_distance-triangle buf (bytes_of q) (bytes_of r),
  bit_diff-hamming_distance buf (bytes_of q),
  bit_diff-hamming_distance buf (bytes_of r),
)

-- The tests before that of a pattern fail for a word near it.
pub earlier :
    (buf : List ℕ) (q : SyncPattern)
    → code q < 9
    → bit_diff buf (bytes_of q) < 4
    → (r : SyncPattern) → code r < code q
    → 4 ≤ bit_diff buf (bytes_of r)
earlier buf q h near r lt = others buf q r h (omega arith) (omega arith) near
