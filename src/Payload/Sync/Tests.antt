-- ===== src/Payload/Sync/Tests.antt =====
-- The synchronisation patterns in concrete packets.
use dmrlib.Common.{
  ℕ, ◌<◌, ◌≤◌, ◌≡◌, ◌↔◌, ◌⊎◌, refl, arith, some, none, List, length, get_or, drop, replicate,
}
use dmrlib.Payload.Sync.{
  bs_sourced_data, ms_sourced_rc, unknown, sync_pattern_decode, sync_pattern_encode,
}
use dmrlib.Payload.Sync.{closest, bit_diff, sync_bits, pattern_of}
use dmrlib.Payload.Sync.Distance.{hamming_distance, bit_diff-hamming_distance}
use dmrlib.Payload.Sync.Apart.{bytes_of}
use dmrlib.Payload.Sync.Decode.{sync_pattern_decode_iff}
use dmrlib.Payload.Sync.Encode.{sync_pattern_decode-encode}

sync_pattern_decode_nothing : sync_pattern_decode (replicate 33 0) ≡ unknown
unfolding sync_pattern_decode closest bit_diff sync_bits
sync_pattern_decode_nothing = refl

sync_pattern_encode_nothing : sync_pattern_encode (replicate 33 0) unknown ≡ none
unfolding sync_pattern_encode pattern_of
sync_pattern_encode_nothing = refl

sync_pattern_decode_iff_example :
    (sync_pattern_decode (replicate 33 0xff) ≡ bs_sourced_data)
    ↔ (hamming_distance (drop 13 (replicate 33 0xff)) (bytes_of bs_sourced_data) < 4)
sync_pattern_decode_iff_example =
    sync_pattern_decode_iff (replicate 33 0xff) bs_sourced_data (λ e. cc e)

sync_pattern_decode-encode_example :
    (sent : List ℕ) × (sync_pattern_encode (replicate 33 0xaa) ms_sourced_rc ≡ some sent)
    × (sync_pattern_decode sent ≡ ms_sourced_rc)
    × (length sent ≡ 33)
    × ((k : ℕ) → (k < 13) ⊎ (20 ≤ k) → get_or sent k 0 ≡ get_or (replicate 33 0xaa) k 0)
sync_pattern_decode-encode_example =
    sync_pattern_decode-encode (replicate 33 0xaa) ms_sourced_rc (λ e. cc e) (omega arith)
      (omega arith)

bit_diff-hamming_distance_example :
    bit_diff (replicate 7 0xff) (replicate 7 0x0f)
    ≡ hamming_distance (replicate 7 0xff) (replicate 7 0x0f)
bit_diff-hamming_distance_example = bit_diff-hamming_distance (replicate 7 0xff) (replicate 7 0x0f)
