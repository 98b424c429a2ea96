-- ===== src/Fec/Bptc.antt =====
-- src/dmr/fec/bptc_196_96.c: the block product turbo code of data bursts. The NULL checks and the
-- dump are left out. Local arrays that are wholly written before they are read start as zeros.
pub mod Matrix
pub mod Rows
pub mod RowLoop
pub mod Columns
pub mod RoundTrip
mod Tests
use dmrlib.Common.{ℕ, zero, suc, ◌+◌, ◌-◌, ◌*◌, ◌%◌, Bool, true, false, List}
use dmrlib.Common.{◌==◌, if◌then◌else◌, get_or, set, replicate, fill}
use dmrlib.Bits.{bytes_to_bits_within, bits_to_bytes_within}
use dmrlib.Fec.Hamming.{hamming_13_9_3, hamming_15_11_3, hamming_encode, hamming_decode}

-- `dmr_bptc_196_96`, two arrays of 196.
pub record Bptc : Type 0 where
  pub raw : List Bool
  pub deinterleaved_bits : List Bool

abbrev pub at : List Bool → ℕ → Bool
at bits i = get_or bits i false

-- The two `memcpy` calls between the packet's 264 bits and the 196 that the code works on.
unfoldable pub take_info : List Bool → List Bool → List Bool
take_info bits raw =
    fill 98 0 (λ k. 98 + k) (λ k. at bits (166 + k)) (fill 98 0 (λ k. k) (at bits) raw)

unfoldable pub put_info : List Bool → List Bool → List Bool
put_info raw bits =
    fill 98 0 (λ k. 166 + k) (λ k. at raw (98 + k)) (fill 98 0 (λ k. k) (at raw) bits)

unfoldable pub deinterleave : List Bool → List Bool → List Bool
deinterleave raw deint = fill 196 1 (λ i. i - 1) (λ i. at raw ((i * 181) % 196)) deint

unfoldable pub interleave : List Bool → List Bool → List Bool
interleave deint raw = fill 196 1 (λ i. (i * 181) % 196) (λ i. at deint (i - 1)) raw

-- `data[13]` and `data[15]` of the decoder.
unfoldable pub column : List Bool → List Bool
column deint = fill 13 0 (λ row. row) (λ row. at deint (row * 15 + 1)) (replicate 13 false)

unfoldable pub row_of : List Bool → ℕ → List Bool
row_of deint row = fill 15 0 (λ col. col) (λ col. at deint (row * 15 + col)) (replicate 15 false)

-- The data bits of rows `row`, `row + 1`, ..., stored from index `i` on.
unfoldable pub extract_rows : ℕ → ℕ → ℕ → List Bool → List Bool → List Bool
extract_rows zero row i deint data_bits = data_bits
extract_rows (suc left) row i deint data_bits =
    extract_rows left (row + 1) (i + 11) deint
      (fill 11 0 (λ col. i + col) (λ col. at deint (row * 15 + col)) data_bits)

unfoldable pub extract : List Bool → List Bool
unfolding extract_rows
extract deint =
    extract_rows 8 1 8 deint (fill 8 0 (λ i. i) (λ i. at deint (3 + i)) (replicate 96 false))

module _ (beyond : ℕ → ℕ) (p : List Bool) where
  -- The loops that check and store back; the flag is false on the return of -1.
  unfoldable pub check_columns : ℕ → List Bool → Bool × List Bool
  check_columns zero deint = (true, deint)
  check_columns (suc left) deint =
      let data_col = column deint in
      let next = check_columns left (fill 13 0 (λ row. row * 15 + 1) (at data_col) deint) in
      if hamming_decode hamming_13_9_3 beyond p data_col then next else (false, deint)

  unfoldable pub check_rows : ℕ → ℕ → List Bool → Bool × List Bool
  check_rows zero row deint = (true, deint)
  check_rows (suc left) row deint =
      let data_row = row_of deint row in
      let next =
        check_rows left (row + 1) (fill 11 0 (λ col. row * 15 + col) (at data_row) deint) in
      if hamming_decode hamming_15_11_3 beyond p data_row then next else (false, deint)

  -- Whether 0 is returned, and what `*bptc` and `data` hold then.
  unfoldable pub bptc_196_96_decode : List ℕ → Bptc → List ℕ → Bool × Bptc × List ℕ
  bptc_196_96_decode packet bptc out =
      let bits = bytes_to_bits_within packet 33 (replicate 264 false) 264 in
      let raw' = take_info bits bptc.raw in
      let deint = deinterleave raw' bptc.deinterleaved_bits in
      let (columns_ok, deint1) = check_columns 15 deint in
      let (rows_ok, deint2) = check_rows 9 0 deint1 in
      if columns_ok
      then (if rows_ok
          then (
            true,
            record { raw = raw'; deinterleaved_bits = deint2 },
            bits_to_bytes_within (extract deint2) 96 out 12,
          )
          else (false, record { raw = raw'; deinterleaved_bits = deint2 }, out))
      else (false, record { raw = raw'; deinterleaved_bits = deint1 }, out)

-- One row: its data bits from index `i` of `data_bits` on, three fewer in row 0, and its parity.
unfoldable pub encode_row : List Bool → ℕ → ℕ → ℕ → List Bool → List Bool
encode_row data_bits first row i deint =
    let hc = hamming_encode hamming_15_11_3 (
      fill (11 - first) first (λ col. col) (λ col. at data_bits (i + (col - first)))
        (replicate 15 false)) in
    fill 4 11 (λ col. row * 15 + col) (at hc)
      (fill (11 - first) first (λ col. row * 15 + col) (λ col. at data_bits (i + (col - first)))
        deint)

unfoldable pub encode_rows : List Bool → ℕ → ℕ → ℕ → List Bool → List Bool
encode_rows data_bits zero row i deint = deint
encode_rows data_bits (suc left) row i deint =
    let first = if row == 0 then 3 else 0 in
    encode_rows data_bits left (row + 1) (i + (11 - first)) (encode_row data_bits first row i deint)

-- The parity of column `col`; `hc` is the array that the columns share.
unfoldable pub column_parity : ℕ → List Bool → List Bool → List Bool
column_parity col hc deint =
    hamming_encode hamming_13_9_3 (fill 9 0 (λ row. row) (λ row. at deint (row * 15 + col)) hc)

unfoldable pub encode_columns : ℕ → ℕ → List Bool → List Bool → List Bool
encode_columns zero col hc deint = deint
encode_columns (suc left) col hc deint =
    let hc' = column_parity col hc deint in
    encode_columns left (col + 1) hc' (
      set
        (set (set (set deint (col + 135) (at hc' 9)) (col + 135 + 15) (at hc' 10)) (col + 135 + 30)
          (at hc' 11))
        (col + 135 + 45) (at hc' 12))

-- The matrix of a message, before it is interleaved.
unfoldable pub product_matrix : List ℕ → List Bool
product_matrix message =
    let data_bits = bytes_to_bits_within message 12 (replicate 96 false) 96 in
    encode_columns 15 0 (replicate 15 false) (encode_rows data_bits 9 0 0 (replicate 196 false))

-- `bits` is the uninitialised local array: what lies between its two written parts goes into the
-- packet as it is.
unfoldable pub bptc_196_96_encode : List Bool → List ℕ → Bptc → List ℕ → Bptc × List ℕ
bptc_196_96_encode bits packet bptc message =
    let deint = product_matrix message in
    let raw' = interleave deint bptc.raw in
    (
      record { raw = raw'; deinterleaved_bits = deint },
      bits_to_bytes_within (put_info raw' bits) 264 packet 33,
    )
