-- ===== src/Fec/Bptc/Rows.antt =====
-- The rows that the encoder makes, and what the decoder finds in them.
use dmrlib.Common.{ℕ, zero, suc, ◌+◌, ◌-◌, ◌*◌, ◌≤◌, ◌<◌, ◌≡◌, refl, sym, ap, ◌∙◌, arith}
use dmrlib.Common.{Bool, false, ◌⊎◌, List, ◌==◌, if◌then◌else◌, get_or, length, replicate}
use dmrlib.Common.{fill, length-fill, get_or-fill_hit, get_or-fill_miss}
use native.Mathlib.Decide.{dec_lt}
use dmrlib.Fec.Hamming.{hamming_15_11_3, table, parity, hamming_encode}
use dmrlib.Fec.Hamming.Accept.{encode_lem, parity_local}
use dmrlib.Fec.Bptc.{at, row_of, encode_row}

get_or-replicate : (n i : ℕ) → get_or (replicate n false) i false ≡ false
get_or-replicate zero i = refl
get_or-replicate (suc n) zero = refl
get_or-replicate (suc n) (suc i) = get_or-replicate n i

pub at-row_of :
    (deint : List Bool) (row col : ℕ)
    → col < 15
    → at (row_of deint row) col ≡ at deint (row * 15 + col)
unfolding row_of
at-row_of deint row col lt =
    get_or-fill_hit (λ col. col) (λ col. at deint (row * 15 + col)) 15 0 col false
      (replicate 15 false) (omega arith) (omega arith) (omega arith) (λ m l h q. omega arith)

-- The row in the making, before its parity.
abbrev hc_data : List Bool → ℕ → ℕ → List Bool
hc_data data_bits first i =
    fill (11 - first) first (λ col. col) (λ col. at data_bits (i + (col - first)))
      (replicate 15 false)

length-hc_data : (data_bits : List Bool) (first i : ℕ) → length (hc_data data_bits first i) ≡ 15
length-hc_data data_bits first i =
    length-fill (λ col. col) (λ col. at data_bits (i + (col - first))) (11 - first) first
      (replicate 15 false)

at-hc_data :
    (data_bits : List Bool) (first i col : ℕ)
    → first ≤ col
    → col < 11
    → at (hc_data data_bits first i) col ≡ at data_bits (i + (col - first))
at-hc_data data_bits first i col lo lt =
    get_or-fill_hit (λ col. col) (λ col. at data_bits (i + (col - first))) (11 - first) first col
      false (replicate 15 false) (omega arith) (omega arith) (omega arith) (λ m l h q. omega arith)

at-hc_data_low :
    (data_bits : List Bool) (first i col : ℕ)
    → col < first
    → at (hc_data data_bits first i) col ≡ false
at-hc_data_low data_bits first i col lt =
    get_or-fill_miss (λ col. col) (λ col. at data_bits (i + (col - first))) (11 - first) first col
      false (replicate 15 false) (λ j lo hi q. omega arith)
    ∙ get_or-replicate 15 col

abbrev pub first_of : ℕ → ℕ
first_of row = if row == 0 then 3 else 0

-- Row `row` holds its data bits and their parity.
pub record IsRow (data_bits deint : List Bool) (row : ℕ) : Type 0 where
  pub holds :
      (col : ℕ)
      → first_of row ≤ col
      → col < 11
      → at deint (row * 15 + col) ≡ at data_bits (row * 11 + col - 3)
  pub checked :
      (x : ℕ)
      → x < 4
      → at deint (row * 15 + (x + 11)) ≡ parity (table hamming_15_11_3) (row_of deint row) x

-- A row depends on its fifteen places only.
pub IsRow-local :
    {data_bits deint deint' : List Bool} {row : ℕ}
    → ((col : ℕ) → col < 15 → at deint' (row * 15 + col) ≡ at deint (row * 15 + col))
    → IsRow data_bits deint row
    → IsRow data_bits deint' row
unfolding table
IsRow-local {deint} {deint'} {row} agree r = record {
  holds = λ col lo lt. agree col (omega arith) ∙ r.holds col lo lt;
  checked = λ x lt.
      agree (x + 11) (omega arith)
      ∙ r.checked x lt
      ∙ parity_local (table hamming_15_11_3) (row_of deint row) (row_of deint' row) x (λ i l.
        at-row_of deint row i (omega arith)
        ∙ sym (agree i (omega arith))
        ∙ sym (at-row_of deint' row i (omega arith)));
}

module _ (data_bits deint : List Bool) (first row i : ℕ) (len : length deint ≡ 196)
    (low : first ≤ 3) (lim : row < 9) where
  abbrev with_data : List Bool
  with_data =
      fill (11 - first) first (λ col. row * 15 + col) (λ col. at data_bits (i + (col - first)))
        deint

  abbrev hc : List Bool
  hc = hamming_encode hamming_15_11_3 (hc_data data_bits first i)

  length-with_data : length with_data ≡ 196
  length-with_data =
      length-fill (λ col. row * 15 + col) (λ col. at data_bits (i + (col - first))) (11 - first)
        first deint
      ∙ len

  pub encode_row_out :
      (j : ℕ)
      → (j < row * 15 + first) ⊎ (row * 15 + 15 ≤ j)
      → at (encode_row data_bits first row i deint) j ≡ at deint j
  unfolding encode_row
  encode_row_out j away =
      get_or-fill_miss (λ col. row * 15 + col) (at hc) 4 11 j false with_data
        (λ c lo hi q. omega arith)
      ∙ get_or-fill_miss (λ col. row * 15 + col) (λ col. at data_bits (i + (col - first)))
          (11 - first) first j false deint (λ c lo hi q. omega arith)

  encode_row_data :
      (col : ℕ)
      → first ≤ col
      → col < 11
      → at (encode_row data_bits first row i deint) (row * 15 + col)
        ≡ at data_bits (i + (col - first))
  unfolding encode_row
  encode_row_data col lo lt =
      get_or-fill_miss (λ col. row * 15 + col) (at hc) 4 11 (row * 15 + col) false with_data
        (λ c l h q. omega arith)
      ∙ get_or-fill_hit (λ col. row * 15 + col) (λ col. at data_bits (i + (col - first)))
          (11 - first) first col false deint lo (omega arith) (omega arith) (λ m l h q. omega arith)

  encode_row-parity :
      (x : ℕ)
      → x < 4
      → at (encode_row data_bits first row i deint) (row * 15 + (x + 11))
        ≡ parity (table hamming_15_11_3) (hc_data data_bits first i) x
  unfolding encode_row table
  encode_row-parity x lt =
      get_or-fill_hit (λ col. row * 15 + col) (at hc) 4 11 (x + 11) false with_data (omega arith)
        (omega arith) (omega (arith, length-with_data)) (λ m l h q. omega arith)
      ∙ (encode_lem hamming_15_11_3 (hc_data data_bits first i)
            (omega (arith, length-hc_data data_bits first i))).2
          x lt

  pub length-encode_row : length (encode_row data_bits first row i deint) ≡ 196
  unfolding encode_row
  length-encode_row = length-fill (λ col. row * 15 + col) (at hc) 4 11 with_data ∙ length-with_data

  -- One round of the loop makes its row.
  pub encode_row-IsRow :
      first ≡ first_of row
      → i ≡ row * 11 - 3
      → ((col : ℕ) → col < first → at deint (row * 15 + col) ≡ false)
      → IsRow data_bits (encode_row data_bits first row i deint) row
  unfolding table
  encode_row-IsRow is_first start clear = record {
    holds = λ col lo lt.
        encode_row_data col (rw is_first lo) lt ∙ ap (at data_bits) (index col (rw is_first lo));
    checked = λ x lt.
        encode_row-parity x lt
        ∙ parity_local (table hamming_15_11_3) (hc_data data_bits first i)
            (row_of (encode_row data_bits first row i deint) row) x
            (λ c l.
              same_data c l
              ∙ sym (at-row_of (encode_row data_bits first row i deint) row c (omega arith)));
  }
    where
      index : (col : ℕ) → first ≤ col → i + (col - first) ≡ row * 11 + col - 3
      index col lo = ground arith

      same_data :
          (c : ℕ)
          → c < 11
          → at (hc_data data_bits first i) c
            ≡ at (encode_row data_bits first row i deint) (row * 15 + c)
      same_data c l = elim (dec_lt c first) [
        | yes p ↦
            at-hc_data_low data_bits first i c p
            ∙ sym (encode_row_out (row * 15 + c) (omega arith) ∙ clear c p)
        | no p ↦
            at-hc_data data_bits first i c (omega arith) l ∙ sym (encode_row_data c (omega arith) l)
      ]
