-- ===== src/Fec/Bptc/Columns.antt =====
-- The column parities of the encoder, and what the decoder finds in column 1.
use dmrlib.Common.{ℕ, zero, suc, ◌+◌, ◌*◌, ◌≤◌, ◌<◌, ◌≡◌, ◌≢◌, refl, sym, ap, ◌∙◌, subst, arith}
use dmrlib.Common.{Bool, true, false, List, if-then, set, length, replicate, length-set}
use dmrlib.Common.{fill, length-fill, fill_same, get_or-fill_hit, get_or-set_self, get_or-set_ne}
use native.Mathlib.Decide.{ℕ_discrete}
use dmrlib.Fec.Hamming.{hamming_13_9_3, table, parity, hamming_decode}
use dmrlib.Fec.Hamming.Accept.{hamming_decode_iff, encode_lem, parity_local}
use dmrlib.Fec.Bptc.{at, column, column_parity, encode_columns, check_columns}

-- The nine data rows of column `col`.
abbrev pub top_of : List Bool → ℕ → List Bool → List Bool
top_of deint col hc = fill 9 0 (λ row. row) (λ row. at deint (row * 15 + col)) hc

at-top_of :
    (deint : List Bool) (col : ℕ) (hc : List Bool) (r : ℕ)
    → length hc ≡ 15
    → r < 9
    → at (top_of deint col hc) r ≡ at deint (r * 15 + col)
at-top_of deint col hc r len lt =
    get_or-fill_hit (λ row. row) (λ row. at deint (row * 15 + col)) 9 0 r false hc (omega arith)
      (omega arith) (omega arith) (λ m l h q. omega arith)

-- Column `col` ends in the parity of its data rows.
abbrev pub IsColumn : List Bool → ℕ → Type 0
IsColumn deint col =
    (x : ℕ)
    → x < 4
    → at deint (x * 15 + (col + 135))
      ≡ parity (table hamming_13_9_3) (top_of deint col (replicate 15 false)) x

IsColumn-local :
    (deint deint' : List Bool) (col : ℕ)
    → col < 15
    → ((j : ℕ) → j < 135 → at deint' j ≡ at deint j)
    → ((x : ℕ) → x < 4 → at deint' (x * 15 + (col + 135)) ≡ at deint (x * 15 + (col + 135)))
    → IsColumn deint col
    → IsColumn deint' col
unfolding table
IsColumn-local deint deint' col lim top low good x lt =
    low x lt
    ∙ good x lt
    ∙ parity_local (table hamming_13_9_3) (top_of deint col (replicate 15 false))
        (top_of deint' col (replicate 15 false)) x
        (λ i l.
          at-top_of deint col (replicate 15 false) i refl l
          ∙ sym (top (i * 15 + col) (omega arith))
          ∙ sym (at-top_of deint' col (replicate 15 false) i refl l))

-- The four assignments behind a column.
abbrev store : List Bool → ℕ → List Bool → List Bool
store deint col hc =
    set
      (set (set (set deint (col + 135) (at hc 9)) (col + 135 + 15) (at hc 10)) (col + 135 + 30)
        (at hc 11))
      (col + 135 + 45) (at hc 12)

store_out :
    (deint : List Bool) (col : ℕ) (hc : List Bool) (j : ℕ)
    → j ≢ col + 135
    → j ≢ col + 135 + 15
    → j ≢ col + 135 + 30
    → j ≢ col + 135 + 45
    → at (store deint col hc) j ≡ at deint j
store_out deint col hc j n0 n1 n2 n3 =
    get_or-set_ne _ (col + 135 + 45) j (at hc 12) false (λ q. n3 (sym q))
    ∙ get_or-set_ne _ (col + 135 + 30) j (at hc 11) false (λ q. n2 (sym q))
    ∙ get_or-set_ne _ (col + 135 + 15) j (at hc 10) false (λ q. n1 (sym q))
    ∙ get_or-set_ne deint (col + 135) j (at hc 9) false (λ q. n0 (sym q))

length-store :
    (deint : List Bool) (col : ℕ) (hc : List Bool) → length (store deint col hc) ≡ length deint
length-store deint col hc =
    length-set _ (col + 135 + 45) (at hc 12)
    ∙ length-set _ (col + 135 + 30) (at hc 11)
    ∙ length-set _ (col + 135 + 15) (at hc 10)
    ∙ length-set deint (col + 135) (at hc 9)

store_in :
    (deint : List Bool) (col : ℕ) (hc : List Bool) (x : ℕ)
    → length deint ≡ 196
    → col < 15
    → x < 4
    → at (store deint col hc) (x * 15 + (col + 135)) ≡ at hc (x + 9)
store_in deint col hc zero len lim lt =
    ap (at (store deint col hc)) {x = 0 * 15 + (col + 135)} {y = col + 135} (omega arith)
    ∙ get_or-set_ne _ (col + 135 + 45) (col + 135) (at hc 12) false (λ q. omega arith)
    ∙ get_or-set_ne _ (col + 135 + 30) (col + 135) (at hc 11) false (λ q. omega arith)
    ∙ get_or-set_ne _ (col + 135 + 15) (col + 135) (at hc 10) false (λ q. omega arith)
    ∙ get_or-set_self deint (col + 135) (at hc 9) false (omega arith)
store_in deint col hc (suc zero) len lim lt =
    ap (at (store deint col hc)) {x = 1 * 15 + (col + 135)} {y = col + 135 + 15} (omega arith)
    ∙ get_or-set_ne _ (col + 135 + 45) (col + 135 + 15) (at hc 12) false (λ q. omega arith)
    ∙ get_or-set_ne _ (col + 135 + 30) (col + 135 + 15) (at hc 11) false (λ q. omega arith)
    ∙ get_or-set_self _ (col + 135 + 15) (at hc 10) false (rw (length-set, len) (omega arith))
store_in deint col hc (suc (suc zero)) len lim lt =
    ap (at (store deint col hc)) {x = 2 * 15 + (col + 135)} {y = col + 135 + 30} (omega arith)
    ∙ get_or-set_ne _ (col + 135 + 45) (col + 135 + 30) (at hc 12) false (λ q. omega arith)
    ∙ get_or-set_self _ (col + 135 + 30) (at hc 11) false
        (rw (length-set, length-set, len) (omega arith))
store_in deint col hc (suc (suc (suc zero))) len lim lt =
    ap (at (store deint col hc)) {x = 3 * 15 + (col + 135)} {y = col + 135 + 45} (omega arith)
    ∙ get_or-set_self _ (col + 135 + 45) (at hc 12) false
        (rw (length-set, length-set, length-set, len) (omega arith))
store_in deint col hc (suc (suc (suc (suc x)))) len lim lt = absurd (omega arith)

-- What `n` rounds from column `col` on have made of `deint`.
pub record Columns (deint result : List Bool) (col n : ℕ) : Type 0 where
  pub same_length : length result ≡ 196
  pub top : (j : ℕ) → j < 135 → at result j ≡ at deint j
  pub out :
      (c x : ℕ) → c < col → x < 4 → at result (x * 15 + (c + 135)) ≡ at deint (x * 15 + (c + 135))
  pub made : (c : ℕ) → col ≤ c → c < col + n → IsColumn result c

column_parity_lem :
    (col : ℕ) (hc deint : List Bool)
    → length hc ≡ 15
    → (length (column_parity col hc deint) ≡ 15)
      × ((x : ℕ)
          → x < 4
          → at (column_parity col hc deint) (x + 9)
            ≡ parity (table hamming_13_9_3) (top_of deint col hc) x)
unfolding column_parity table
column_parity_lem col hc deint len =
    let length_top = length-fill (λ row. row) (λ row. at deint (row * 15 + col)) 9 0 hc in
    let places = encode_lem hamming_13_9_3 (top_of deint col hc) (omega arith) in
    (places.0 ∙ length_top ∙ len, places.2)

store-IsColumn :
    (deint : List Bool) (col : ℕ) (hc : List Bool)
    → length deint ≡ 196
    → length hc ≡ 15
    → col < 15
    → IsColumn (store deint col (column_parity col hc deint)) col
unfolding table
store-IsColumn deint col hc len room lim x lt =
    let hc' = column_parity col hc deint in
    store_in deint col hc' x len lim lt
    ∙ (column_parity_lem col hc deint room).1 x lt
    ∙ parity_local (table hamming_13_9_3) (top_of deint col hc)
        (top_of (store deint col hc') col (replicate 15 false)) x
        (λ i l.
          at-top_of deint col hc i room l
          ∙ sym (
              store_out deint col hc' (i * 15 + col) (λ q. omega arith) (λ q. omega arith)
                (λ q. omega arith) (λ q. omega arith))
          ∙ sym (at-top_of (store deint col hc') col (replicate 15 false) i refl l))

pub encode_columns-Columns :
    (left col : ℕ) (hc deint : List Bool)
    → length deint ≡ 196
    → length hc ≡ 15
    → col + left ≤ 15
    → Columns deint (encode_columns left col hc deint) col left
unfolding encode_columns
encode_columns-Columns zero col hc deint len room lim = record {
  same_length = len;
  top = λ j lt. refl;
  out = λ c x lt lt'. refl;
  made = λ c lo lt. absurd (omega arith);
}
encode_columns-Columns (suc left) col hc deint len room lim =
    let hc' = column_parity col hc deint in
    let next = store deint col hc' in
    let rest : Columns next (encode_columns left (col + 1) hc' next) (col + 1) left =
      encode_columns-Columns left (col + 1) hc' next (length-store deint col hc' ∙ len)
        (column_parity_lem col hc deint room).0 (omega arith) in
    record {
      same_length = rest.same_length;
      top = λ j lt.
          rest.top j lt
          ∙ store_out deint col hc' j (λ q. omega arith) (λ q. omega arith) (λ q. omega arith)
              (λ q. omega arith);
      out = λ c x lt lt'.
          rest.out c x (omega arith) lt'
          ∙ store_out deint col hc' (x * 15 + (c + 135)) (λ q. omega arith) (λ q. omega arith)
              (λ q. omega arith) (λ q. omega arith);
      made = λ c lo lt. elim (ℕ_discrete col c) [
        | yes e ↦
            subst (λ t. IsColumn (encode_columns left (col + 1) hc' next) t) e
              (IsColumn-local next (encode_columns left (col + 1) hc' next) col (omega arith)
                rest.top (λ x l. rest.out col x (omega arith) l)
                (store-IsColumn deint col hc len room (omega arith)))
        | no ne ↦ rest.made c (omega arith) (omega arith)
      ];
    }

at-column :
    (deint : List Bool) (row : ℕ) → row < 13 → at (column deint) row ≡ at deint (row * 15 + 1)
unfolding column
at-column deint row lt =
    get_or-fill_hit (λ row. row) (λ row. at deint (row * 15 + 1)) 13 0 row false
      (replicate 13 false) (omega arith) (omega arith) (omega arith) (λ m l h q. omega arith)

-- The decoder passes a matrix whose column 1 holds its parity, and changes nothing.
pub check_columns_lem :
    (beyond : ℕ → ℕ) (p : List Bool) (left : ℕ) (deint : List Bool)
    → 4 ≤ length p
    → IsColumn deint 1
    → check_columns beyond p left deint ≡ (true, deint)
unfolding check_columns
check_columns_lem beyond p zero deint room good = refl
check_columns_lem beyond p (suc left) deint room good =
    if-then (hamming_decode hamming_13_9_3 beyond p (column deint)) _ (false, deint) passes
    ∙ ap (check_columns beyond p left) (
        fill_same (λ row. row * 15 + 1) (at (column deint)) 13 0 false deint
          (λ j lo hi. at-column deint j (omega arith)))
    ∙ check_columns_lem beyond p left deint room good
  where
    passes : hamming_decode hamming_13_9_3 beyond p (column deint) ≡ true
    passes =
        unfold table in
        (hamming_decode_iff hamming_13_9_3 beyond p (column deint) room).1 (λ x lt.
          at-column deint (x + 9) (omega arith)
          ∙ ap (at deint) {x = (x + 9) * 15 + 1} {y = x * 15 + (1 + 135)} (omega arith)
          ∙ good x lt
          ∙ parity_local (table hamming_13_9_3) (top_of deint 1 (replicate 15 false)) (column deint)
              x
              (λ i l.
                at-top_of deint 1 (replicate 15 false) i refl l
                ∙ sym (at-column deint i (omega arith))))
