-- ===== src/Fec/Tests.antt =====
-- The codes at concrete words.
use dmrlib.Common.{ℕ, ◌/◌, ◌<◌, ◌≡◌, refl, true, false, some, List, [], ◌∷◌}
use dmrlib.Common.{arith, length, get_or, bit_xor}
use dmrlib.Common.Weight.{weight}
use dmrlib.Fec.Rs.{encode, gmult, rs_12_9_4_decode, rs_12_9_4_encode}
use dmrlib.Fec.Rs.Field.{field_mul, gmult-field_mul}
use dmrlib.Fec.Rs.Detect.{rs_12_9_4_decode-encode, rs_12_9_4_decode_burst}
use dmrlib.Fec.Qr.{encoder_map, qr_16_7_encode, qr_16_7_decode}
use dmrlib.Fec.Qr.Code.{qr_16_7_decode-encode, qr_16_7_decode_detects}
use dmrlib.Fec.Golay.{decoder, golay_20_8_syndrome, golay_20_8_decode, golay_20_8_encode}
use dmrlib.Fec.Golay.{repair, code_of, divide, seek}
use dmrlib.Fec.Golay.Syndrome.{residue, golay_20_8_syndrome-residue}
use dmrlib.Fec.Golay.Correct.{golay_20_8_decode_corrects}

abbrev lc_word : List ℕ
lc_word = 0x00 ∷ 0x10 ∷ 0x20 ∷ 0x00 ∷ 0x0c ∷ 0x30 ∷ 0x2f ∷ 0x9b ∷ 0xe5 ∷ 0x4c ∷ 0x42 ∷ 0xcc ∷ []

rs_12_9_4_decode-lc_word : rs_12_9_4_decode lc_word ≡ true
unfolding rs_12_9_4_decode encode gmult
rs_12_9_4_decode-lc_word = refl

rs_12_9_4_decode-encode_example :
    (rs_12_9_4_decode (rs_12_9_4_encode lc_word) ≡ true)
    × (length (rs_12_9_4_encode lc_word) ≡ 12)
    × ((k : ℕ) → k < 9 → get_or (rs_12_9_4_encode lc_word) k 0 ≡ get_or lc_word k 0)
rs_12_9_4_decode-encode_example = rs_12_9_4_decode-encode lc_word refl

rs_12_9_4_decode_burst_example :
    (◌≡◌ {A = ℕ} 0x20 0x20) × (◌≡◌ {A = ℕ} 0x00 0x00) × (◌≡◌ {A = ℕ} 0x0c 0x0c)
unfolding rs_12_9_4_decode encode gmult
rs_12_9_4_decode_burst_example =
    rs_12_9_4_decode_burst (0x00 ∷ 0x10 ∷ []) (0x30 ∷ 0x2f ∷ 0x9b ∷ 0xe5 ∷ 0x4c ∷ 0x42 ∷ 0xcc ∷ [])
      0x20 0x00 0x0c 0x20 0x00 0x0c (omega arith) (omega arith) (omega arith) (omega arith) refl
      refl refl

-- A changed byte is noticed.
rs_12_9_4_decode_changed :
    rs_12_9_4_decode
      (0x00 ∷ 0x10 ∷ 0x21 ∷ 0x00 ∷ 0x0c ∷ 0x30 ∷ 0x2f ∷ 0x9b ∷ 0xe5 ∷ 0x4c ∷ 0x42 ∷ 0xcc ∷ [])
    ≡ false
unfolding rs_12_9_4_decode encode gmult
rs_12_9_4_decode_changed = refl

qr_16_7_decode-encode_example :
    (qr_16_7_decode (qr_16_7_encode (0x12, 0)) ≡ true) × ((qr_16_7_encode (0x12, 0)).0 / 2 ≡ 9)
qr_16_7_decode-encode_example = qr_16_7_decode-encode 0x12 0

qr_16_7_decode_detects_example : (◌≡◌ {A = ℕ} 0x13 0x13) × (◌≡◌ {A = ℕ} 0x91 0x91)
unfolding qr_16_7_decode encoder_map weight
qr_16_7_decode_detects_example =
    qr_16_7_decode_detects 0x13 0x91 0x13 0x91 (omega arith) (omega arith) (omega arith)
      (omega arith) (omega arith) refl refl

golay_20_8_syndrome-residue_example : golay_20_8_syndrome 0x12345 ≡ some (residue 12 0x12345)
golay_20_8_syndrome-residue_example = golay_20_8_syndrome-residue 0x12345 (omega arith)

-- Three wrong bits, one in each byte.
golay_20_8_decode_corrects_example :
    let (c1, c2) = golay_20_8_encode 0x16 in
    golay_20_8_decode (bit_xor 0x16 0x80) (bit_xor c1 0x01) (bit_xor c2 0x20) ≡ some 0x16
unfolding weight
golay_20_8_decode_corrects_example =
    golay_20_8_decode_corrects 0x16 0x80 0x01 0x20 (omega arith) (omega arith) (omega arith)
      (omega arith) (omega arith)

golay_20_8_decode_three_wrong : golay_20_8_decode 0x96 0x90 0x00 ≡ golay_20_8_decode 0x96 0x90 0x01
unfolding golay_20_8_decode repair golay_20_8_syndrome divide seek code_of decoder
golay_20_8_decode_three_wrong = refl

gmult-field_mul_example : gmult 0x57 0x83 ≡ field_mul 0x57 0x83
gmult-field_mul_example = gmult-field_mul 0x57 0x83 (omega arith) (omega arith)
