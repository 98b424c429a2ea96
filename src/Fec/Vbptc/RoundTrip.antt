-- ===== src/Fec/Vbptc/RoundTrip.antt =====
-- src/dmr/fec/vbptc_16_11.c: what the encoder makes is read back.
use dmrlib.Common.{
  ℕ, zero, suc, ◌+◌, ◌-◌, ◌*◌, ◌/◌, ◌%◌, ◌^◌, ◌<◌, ◌≤◌, min, ◌≡◌, refl, sym, ap, ◌∙◌, arith, Bool,
  true, false, ◌==◌, List, some, length, length-fill, get_or, get_or_ext, get_or-fill_miss,
  get_or-fill_hit, fill, if-else, leb,
}
use native.Mathlib.Decide.{ℕ_discrete}
use dmrlib.Fec.Vbptc.{Vbptc, wipe, matrix_free, check_row}
use dmrlib.Fec.Vbptc.Code.{
  decode_row, decode_rows, vbptc_decode, place_from, encode_parity_rows, encode_parity_columns,
  finish, encoded, encoded_as, vbptc_encode,
}
use dmrlib.Fec.Vbptc.Place.{
  place, placed, place_from-fill, encode_parity_rows_data, parity_bits_ext,
  encode_parity_rows_parity, encode_parity_columns_before, check_row-true,
}

-- A row of bits that are all asked for is read by a loop of stores.
decode_row-fill :
    (left row col len : ℕ) (matrix bits : List Bool)
    → row * 11 + col + left ≤ len
    → decode_row left row col len matrix bits
      ≡ fill left col (λ c. row * 11 + c) (λ c. get_or matrix (row * 16 + c) false) bits
unfolding decode_row fill
decode_row-fill zero row col len matrix bits h = refl
decode_row-fill (suc left) row col len matrix bits h =
    if-else (leb len (row * 11 + col)) _ _ (ground arith)
    ∙ decode_row-fill left row (col + 1) len matrix _ (omega arith)

length-decode_rows :
    (left row len : ℕ) (matrix bits : List Bool)
    → (row + left) * 11 ≤ len
    → length (decode_rows left row len matrix bits) ≡ length bits
unfolding decode_rows
length-decode_rows zero row len matrix bits h = refl
length-decode_rows (suc left) row len matrix bits h =
    length-decode_rows left (row + 1) len matrix _ (omega arith)
    ∙ ap length (decode_row-fill 11 row 0 len matrix bits (omega arith))
    ∙ length-fill _ _ 11 0 bits

decode_rows_before :
    (left row len k : ℕ) (matrix bits : List Bool)
    → (row + left) * 11 ≤ len
    → k < row * 11
    → get_or (decode_rows left row len matrix bits) k false ≡ get_or bits k false
unfolding decode_rows
decode_rows_before zero row len k matrix bits h before = refl
decode_rows_before (suc left) row len k matrix bits h before =
    decode_rows_before left (row + 1) len k matrix _ (omega arith) (omega arith)
    ∙ ap (λ t. get_or t k false) (decode_row-fill 11 row 0 len matrix bits (omega arith))
    ∙ get_or-fill_miss _ _ 11 0 k false bits (λ j lo hi e. omega arith)

decode_rows_hit :
    (left row len q c : ℕ) (matrix bits : List Bool)
    → (row + left) * 11 ≤ len
    → (row + left) * 11 ≤ length bits
    → row ≤ q
    → q < row + left
    → c < 11
    → get_or (decode_rows left row len matrix bits) (q * 11 + c) false
      ≡ get_or matrix (q * 16 + c) false
unfolding decode_rows
decode_rows_hit zero row len q c matrix bits h fits lo hi small = absurd (omega arith)
decode_rows_hit (suc left) row len q c matrix bits h fits lo hi small = elim (ℕ_discrete row q) [
  | yes e ↦ rw (sym e) (
      decode_rows_before left (row + 1) len (row * 11 + c) matrix _ (omega arith) (omega arith)
      ∙ ap (λ t. get_or t (row * 11 + c) false)
          (decode_row-fill 11 row 0 len matrix bits (omega arith))
      ∙ get_or-fill_hit (λ d. row * 11 + d) (λ d. get_or matrix (row * 16 + d) false) 11 0 c false
          bits (omega arith) (omega arith) (omega arith) (λ m a b clash. omega arith))
  | no e ↦
      decode_rows_hit left (row + 1) len q c matrix _ (omega arith)
        (omega (
          arith,
          ap length (decode_row-fill 11 row 0 len matrix bits (omega arith)),
          length-fill (λ d. row * 11 + d) (λ d. get_or matrix (row * 16 + d) false) 11 0 bits,
        ))
        (omega arith) (omega arith) small
]

module _ (v : Vbptc) (bits : List Bool) (size : length v.matrix ≡ v.rows * 16)
    (some_rows : 2 ≤ v.rows) (few_rows : v.rows ≤ 24) (all : length bits ≡ (v.rows - 1) * 11) where
  abbrev len : ℕ
  len = (v.rows - 1) * 11

  abbrev zeroed : List Bool
  zeroed = fill (v.rows * 16) 0 (λ i. i) (λ _. false) v.matrix

  abbrev filled : List Bool
  filled = fill len 0 place (λ j. get_or bits j false) zeroed

  abbrev with_rows : List Bool
  with_rows = encode_parity_rows (v.rows - 1) 0 filled

  abbrev product : List Bool
  product = encode_parity_columns 16 0 v.rows with_rows

  length-filled : length filled ≡ v.rows * 16
  length-filled = length-fill place _ len 0 zeroed ∙ length-fill _ _ (v.rows * 16) 0 v.matrix ∙ size

  result : Vbptc
  result = record { matrix = product; row = len / 11; col = len % 11; rows = v.rows }

  ends : vbptc_encode v bits len ≡ encoded result
  unfolding vbptc_encode wipe matrix_free finish encoded_as result
  ends =
      if-else (len == 0) _ _ (ground arith)
      ∙ ap (λ n. encoded_as (finish (place_from 257 0 n bits (placed v.rows 0 zeroed))))
          {x = min len ((v.rows * 16 + (2 ^ 64 - (0 * v.rows + 0))) % 2 ^ 64)} {y = 0 + len}
          (omega arith)
      ∙ ap (λ t. encoded_as (finish t))
          (place_from-fill 257 len 0 v.rows bits zeroed (omega arith) (omega arith))
      ∙ ap (λ k. encoded_as (finish (some (placed v.rows k filled)))) {x = 0 + len} {y = len}
          (omega arith)

  data_cell :
      (q c : ℕ)
      → q < v.rows - 1
      → c < 11
      → get_or product (q * 16 + c) false ≡ get_or bits (q * 11 + c) false
  data_cell q c below small =
      encode_parity_columns_before 16 0 v.rows (q * 16 + c) with_rows (omega arith)
      ∙ encode_parity_rows_data (v.rows - 1) 0 q c filled small
      ∙ ap (λ k. get_or filled k false) {x = q * 16 + c} {y = place (q * 11 + c)} (omega arith)
      ∙ get_or-fill_hit place (λ j. get_or bits j false) len 0 (q * 11 + c) false zeroed
          (omega arith) (omega arith)
          (omega (arith, length-fill place (λ j. get_or bits j false) len 0 zeroed, length-filled))
          (λ m lo hi clash. omega arith)

  right_row : (q : ℕ) → q < v.rows - 1 → check_row product (q * 16) ≡ true
  right_row q below = check_row-true product (q * 16) (λ c small.
      ap (λ k. get_or product k false) {x = q * 16 + (11 + c)} {y = q * 16 + 11 + c} (omega arith)
      ∙ encode_parity_columns_before 16 0 v.rows (q * 16 + 11 + c) with_rows (omega arith)
      ∙ encode_parity_rows_parity (v.rows - 1) 0 q c filled (omega arith) (omega arith) small
          (omega (arith, length-filled))
      ∙ ap (λ t. get_or t c false)
          (parity_bits_ext filled product (q * 16) (λ d small. sym (
            encode_parity_columns_before 16 0 v.rows (q * 16 + d) with_rows (omega arith)
            ∙ encode_parity_rows_data (v.rows - 1) 0 q d filled small))))

  read_back :
      (out : List Bool) → length out ≡ len → decode_rows (v.rows - 1) 0 len product out ≡ bits
  read_back out same =
      get_or_ext false (decode_rows (v.rows - 1) 0 len product out) bits
        (length-decode_rows (v.rows - 1) 0 len product out (omega arith) ∙ same ∙ sym all)
        (λ k below.
          let inside : k < len =
            omega (arith, length-decode_rows (v.rows - 1) 0 len product out (omega arith)) in
          ap (λ i. get_or (decode_rows (v.rows - 1) 0 len product out) i false) {x = k}
            {y = k / 11 * 11 + k % 11} (omega arith)
          ∙ decode_rows_hit (v.rows - 1) 0 len (k / 11) (k % 11) product out (omega arith)
              (omega arith) (omega arith) (omega arith) (omega arith)
          ∙ data_cell (k / 11) (k % 11) (omega arith) (omega arith)
          ∙ ap (λ i. get_or bits i false) {x = k / 11 * 11 + k % 11} {y = k} (omega arith))

  -- In a matrix of 2 to 24 rows, encoding as many bits as the rows but the last have room for ends,
  -- whatever the matrix held, every row but the last passes the check of its parities, and decoding
  -- gives the bits, whatever the array that they are written to held.
  pub vbptc_decode-encode :
      (out : List Bool)
      → length out ≡ (v.rows - 1) * 11
      → (w : Vbptc) × (vbptc_encode v bits ((v.rows - 1) * 11) ≡ encoded w)
        × ((q : ℕ) → q < v.rows - 1 → check_row w.matrix (q * 16) ≡ true)
        × (vbptc_decode w out ((v.rows - 1) * 11) ≡ some bits)
  unfolding vbptc_decode result
  vbptc_decode-encode out same = (
    result,
    ends,
    right_row,
    if-else (v.rows == 0) _ _ (ground arith) ∙ ap some (read_back out same),
  )
