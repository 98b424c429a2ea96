-- ===== src/Fec/Hamming/Tests.antt =====
-- The Hamming codes at concrete words.
use dmrlib.Common.{
  ℕ, ◌<◌, ◌≡◌, ◌↔◌, refl, arith, Bool, true, false, List, [], ◌∷◌, length, get_or, replicate,
}
use dmrlib.Fec.Hamming.{hamming_7_4_3, table, hamming_encode, hamming_decode, hamming_parity_check}
use dmrlib.Fec.Hamming.Accept.{IsParity, hamming_decode_iff, hamming_decode-encode}
use dmrlib.Fec.Hamming.Distance.{distance, hamming_decode-distance}

abbrev word_7 : List Bool
word_7 = true ∷ false ∷ false ∷ true ∷ false ∷ false ∷ false ∷ []

abbrev scratch_4 : List Bool
scratch_4 = replicate 4 false

-- One wrong bit is noticed and not repaired.
hamming_decode_wrong : hamming_decode hamming_7_4_3 (λ i. 0) scratch_4 word_7 ≡ false
unfolding hamming_decode hamming_parity_check table
hamming_decode_wrong = refl

hamming_decode-encode_example :
    (hamming_decode hamming_7_4_3 (λ i. 0) scratch_4 (hamming_encode hamming_7_4_3 word_7) ≡ true)
    × (length (hamming_encode hamming_7_4_3 word_7) ≡ (table hamming_7_4_3).n)
    × ((i : ℕ)
        → i < (table hamming_7_4_3).k
        → get_or (hamming_encode hamming_7_4_3 word_7) i false ≡ get_or word_7 i false)
unfolding table
hamming_decode-encode_example =
    hamming_decode-encode hamming_7_4_3 (λ i. 0) scratch_4 word_7 (omega arith) refl

hamming_decode_iff_example :
    (hamming_decode hamming_7_4_3 (λ i. 0) scratch_4 word_7 ≡ true)
    ↔ IsParity (table hamming_7_4_3) word_7
unfolding table
hamming_decode_iff_example =
    hamming_decode_iff hamming_7_4_3 (λ i. 0) scratch_4 word_7 (omega arith)

hamming_decode-distance_example : replicate 7 false ≡ replicate 7 false
unfolding table distance hamming_decode hamming_parity_check
hamming_decode-distance_example =
    hamming_decode-distance hamming_7_4_3 (λ i. 0) scratch_4 (replicate 7 false) (replicate 7 false)
      (omega arith) refl refl (omega arith) refl refl
