-- ===== src/Fec/Bptc/RowLoop.antt =====
-- The loops over the rows, of the encoder and of the decoder.
use dmrlib.Common.{ℕ, zero, suc, ◌+◌, ◌-◌, ◌*◌, ◌≤◌, ◌<◌, ◌≡◌, refl, ap, ◌∙◌, subst, arith}
use dmrlib.Common.{Bool, true, false, ◌⊎◌, inl, List, if-then, length, fill_same}
use native.Mathlib.Decide.{ℕ_discrete}
use dmrlib.Fec.Hamming.{hamming_15_11_3, table, hamming_decode}
use dmrlib.Fec.Hamming.Accept.{hamming_decode_iff}
use dmrlib.Fec.Bptc.{at, row_of, encode_row, encode_rows, check_rows}
use dmrlib.Fec.Bptc.Rows.{IsRow, IsRow-local, first_of, at-row_of}
use dmrlib.Fec.Bptc.Rows.{encode_row_out, length-encode_row, encode_row-IsRow}

first_of-le : (row : ℕ) → first_of row ≤ 3
first_of-le row = ground arith

-- What `n` rounds from row `row` on have made of `deint`.
pub record Rows (data_bits deint result : List Bool) (row n : ℕ) : Type 0 where
  pub same_length : length result ≡ 196
  pub made : (r : ℕ) → row ≤ r → r < row + n → IsRow data_bits result r
  pub out :
      (j : ℕ) → (j < row * 15 + first_of row) ⊎ ((row + n) * 15 ≤ j) → at result j ≡ at deint j

pub encode_rows-Rows :
    (data_bits : List Bool) (left row i : ℕ) (deint : List Bool)
    → length deint ≡ 196
    → row + left ≤ 9
    → i ≡ row * 11 - 3
    → ((col : ℕ) → col < first_of row → at deint (row * 15 + col) ≡ false)
    → Rows data_bits deint (encode_rows data_bits left row i deint) row left
unfolding encode_rows
encode_rows-Rows data_bits zero row i deint len lim start clear = record {
  same_length = len;
  made = λ r lo lt. absurd (omega arith);
  out = λ j h. refl;
}
encode_rows-Rows data_bits (suc left) row i deint len lim start clear =
    let first = first_of row in
    let low = first_of-le row in
    let next = encode_row data_bits first row i deint in
    let rest : Rows data_bits next (encode_rows data_bits left (row + 1) (i + (11 - first)) next)
        (row + 1) left =
      encode_rows-Rows data_bits left (row + 1) (i + (11 - first)) next
        (length-encode_row data_bits deint first row i len low (omega arith)) (omega arith)
        (ground arith) (λ col lt. absurd (ground arith)) in
    record {
      same_length = rest.same_length;
      made = λ r lo lt. elim (ℕ_discrete row r) [
        | yes e ↦
            subst
              (λ t.
                IsRow data_bits (encode_rows data_bits left (row + 1) (i + (11 - first)) next) t)
              e
              (IsRow-local {data_bits = data_bits} {deint = next} {row = row}
                (λ col l. rest.out (row * 15 + col) (inl (ground arith)))
                (encode_row-IsRow data_bits deint first row i len low (omega arith) refl start
                  clear))
        | no ne ↦ rest.made r (omega arith) (omega arith)
      ];
      out = λ j h.
          rest.out j (ground arith)
          ∙ encode_row_out data_bits deint first row i len low (omega arith) j (ground arith);
    }

-- The decoder passes rows that hold their parity, and changes nothing.
pub check_rows_lem :
    (beyond : ℕ → ℕ) (p : List Bool) (data_bits : List Bool) (left row : ℕ) (deint : List Bool)
    → 4 ≤ length p
    → ((r : ℕ) → row ≤ r → r < row + left → IsRow data_bits deint r)
    → check_rows beyond p left row deint ≡ (true, deint)
unfolding check_rows
check_rows_lem beyond p data_bits zero row deint room good = refl
check_rows_lem beyond p data_bits (suc left) row deint room good =
    if-then (hamming_decode hamming_15_11_3 beyond p (row_of deint row)) _ (false, deint)
      (passes row (good row (omega arith) (omega arith)))
    ∙ ap (check_rows beyond p left (row + 1)) (
        fill_same (λ col. row * 15 + col) (at (row_of deint row)) 11 0 false deint
          (λ j lo hi. at-row_of deint row j (omega arith)))
    ∙ check_rows_lem beyond p data_bits left (row + 1) deint room
        (λ r lo lt. good r (omega arith) (omega arith))
  where
    passes :
        (row : ℕ)
        → IsRow data_bits deint row
        → hamming_decode hamming_15_11_3 beyond p (row_of deint row) ≡ true
    passes row r =
        unfold table in
        (hamming_decode_iff hamming_15_11_3 beyond p (row_of deint row) room).1
          (λ x lt. at-row_of deint row (x + 11) (omega arith) ∙ r.checked x lt)
