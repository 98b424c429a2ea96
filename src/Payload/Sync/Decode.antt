-- ===== src/Payload/Sync/Decode.antt =====
-- The decoder finds the one pattern near a packet.
use dmrlib.Common.{ℕ, ◌<◌, ◌≡◌, ◌≢◌, ◌↔◌, refl, sym, ◌∙◌, subst, arith}
use dmrlib.Common.{Bool, true, false, ◌⊎◌, inl, inr, List, ltb, if◌then◌else◌, drop}
use dmrlib.Payload.Sync.{
  SyncPattern, bs_sourced_voice, bs_sourced_data, ms_sourced_voice, ms_sourced_data, ms_sourced_rc,
  direct_voice_ts1, direct_data_ts1, direct_voice_ts2, direct_data_ts2, unknown,
}
use dmrlib.Payload.Sync.{bit_diff, closest, sync_pattern_decode}
use dmrlib.Payload.Sync.{
  pattern_bs_sourced_voice, pattern_bs_sourced_data, pattern_ms_sourced_voice,
  pattern_ms_sourced_data, pattern_ms_sourced_rc, pattern_direct_voice_ts1, pattern_direct_data_ts1,
  pattern_direct_voice_ts2, pattern_direct_data_ts2,
}
use dmrlib.Payload.Sync.Distance.{hamming_distance, bit_diff-hamming_distance}
use dmrlib.Payload.Sync.Apart.{code, bytes_of, earlier}

closest_of :
    (buf : List ℕ) (q : SyncPattern) → code q < 9 → bit_diff buf (bytes_of q) < 4 → closest buf ≡ q
unfolding closest code bytes_of
closest_of buf bs_sourced_voice h near = ground arith
closest_of buf bs_sourced_data h near =
    let far = earlier buf bs_sourced_data h near in
    ground (arith, far bs_sourced_voice (omega arith))
closest_of buf ms_sourced_voice h near =
    let far = earlier buf ms_sourced_voice h near in
    ground (arith, far bs_sourced_voice (omega arith), far bs_sourced_data (omega arith))
closest_of buf ms_sourced_data h near =
    let far = earlier buf ms_sourced_data h near in
    ground (
      arith,
      far bs_sourced_voice (omega arith),
      far bs_sourced_data (omega arith),
      far ms_sourced_voice (omega arith),
    )
closest_of buf ms_sourced_rc h near =
    let far = earlier buf ms_sourced_rc h near in
    ground (
      arith,
      far bs_sourced_voice (omega arith),
      far bs_sourced_data (omega arith),
      far ms_sourced_voice (omega arith),
      far ms_sourced_data (omega arith),
    )
closest_of buf direct_voice_ts1 h near =
    let far = earlier buf direct_voice_ts1 h near in
    ground (
      arith,
      far bs_sourced_voice (omega arith),
      far bs_sourced_data (omega arith),
      far ms_sourced_voice (omega arith),
      far ms_sourced_data (omega arith),
      far ms_sourced_rc (omega arith),
    )
closest_of buf direct_data_ts1 h near =
    let far = earlier buf direct_data_ts1 h near in
    ground (
      arith,
      far bs_sourced_voice (omega arith),
      far bs_sourced_data (omega arith),
      far ms_sourced_voice (omega arith),
      far ms_sourced_data (omega arith),
      far ms_sourced_rc (omega arith),
      far direct_voice_ts1 (omega arith),
    )
closest_of buf direct_voice_ts2 h near =
    let far = earlier buf direct_voice_ts2 h near in
    ground (
      arith,
      far bs_sourced_voice (omega arith),
      far bs_sourced_data (omega arith),
      far ms_sourced_voice (omega arith),
      far ms_sourced_data (omega arith),
      far ms_sourced_rc (omega arith),
      far direct_voice_ts1 (omega arith),
      far direct_data_ts1 (omega arith),
    )
closest_of buf direct_data_ts2 h near =
    let far = earlier buf direct_data_ts2 h near in
    ground (
      arith,
      far bs_sourced_voice (omega arith),
      far bs_sourced_data (omega arith),
      far ms_sourced_voice (omega arith),
      far ms_sourced_data (omega arith),
      far ms_sourced_rc (omega arith),
      far direct_voice_ts1 (omega arith),
      far direct_data_ts1 (omega arith),
      far direct_voice_ts2 (omega arith),
    )
closest_of buf unknown h near = absurd (omega arith)

-- What holds of both branches holds of the test.
first_of :
    (P : SyncPattern → Type 0) (b : Bool) (x y : SyncPattern)
    → (b ≡ true → P x)
    → P y
    → P (if b then x else y)
first_of P true x y h k = h refl
first_of P false x y h k = k

abbrev Near : List ℕ → SyncPattern → Type 0
Near buf q = (q ≡ unknown) ⊎ (bit_diff buf (bytes_of q) < 4)

closest-Near : (buf : List ℕ) → Near buf (closest buf)
unfolding closest bytes_of
closest-Near buf =
    first_of (Near buf) (ltb (bit_diff buf pattern_bs_sourced_voice) 4) bs_sourced_voice _
      (λ h. inr (ground arith))
      (first_of (Near buf) (ltb (bit_diff buf pattern_bs_sourced_data) 4) bs_sourced_data _
        (λ h. inr (ground arith))
        (first_of (Near buf) (ltb (bit_diff buf pattern_ms_sourced_voice) 4) ms_sourced_voice _
          (λ h. inr (ground arith))
          (first_of (Near buf) (ltb (bit_diff buf pattern_ms_sourced_data) 4) ms_sourced_data _
            (λ h. inr (ground arith))
            (first_of (Near buf) (ltb (bit_diff buf pattern_ms_sourced_rc) 4) ms_sourced_rc _
              (λ h. inr (ground arith))
              (first_of (Near buf) (ltb (bit_diff buf pattern_direct_voice_ts1) 4) direct_voice_ts1
                _ (λ h. inr (ground arith))
                (first_of (Near buf) (ltb (bit_diff buf pattern_direct_data_ts1) 4) direct_data_ts1
                  _ (λ h. inr (ground arith))
                  (first_of (Near buf) (ltb (bit_diff buf pattern_direct_voice_ts2) 4)
                    direct_voice_ts2 _ (λ h. inr (ground arith))
                    (first_of (Near buf) (ltb (bit_diff buf pattern_direct_data_ts2) 4)
                      direct_data_ts2 _ (λ h. inr (ground arith)) (inl refl)))))))))

code-lt : (q : SyncPattern) → q ≢ unknown → code q < 9
unfolding code
code-lt bs_sourced_voice h = omega arith
code-lt bs_sourced_data h = omega arith
code-lt ms_sourced_voice h = omega arith
code-lt ms_sourced_data h = omega arith
code-lt ms_sourced_rc h = omega arith
code-lt direct_voice_ts1 h = omega arith
code-lt direct_data_ts1 h = omega arith
code-lt direct_voice_ts2 h = omega arith
code-lt direct_data_ts2 h = omega arith
code-lt unknown h = absurd (h refl)

-- The decoder returns a pattern exactly if fewer than four of the 48 bits behind the first 108
-- differ from it: it corrects every three errors, and two patterns never compete.
pub sync_pattern_decode_iff :
    (packet : List ℕ) (q : SyncPattern)
    → q ≢ unknown
    → (sync_pattern_decode packet ≡ q) ↔ (hamming_distance (drop 13 packet) (bytes_of q) < 4)
unfolding sync_pattern_decode
sync_pattern_decode_iff packet q known = (
  λ e. elim (closest-Near (drop 13 packet)) [
    | inl u ↦ absurd (known (sym e ∙ u))
    | inr near ↦
        subst (λ t. hamming_distance (drop 13 packet) (bytes_of t) < 4) e
          (omega (
            arith,
            bit_diff-hamming_distance (drop 13 packet) (bytes_of (closest (drop 13 packet))),
          ))
  ],
  λ near.
      closest_of (drop 13 packet) q (code-lt q known)
        (omega (arith, bit_diff-hamming_distance (drop 13 packet) (bytes_of q))),
)
