-- ===== src/Fec/Bptc/RoundTrip.antt =====
-- A message that is encoded into a packet is decoded from it.
use dmrlib.Common.{ℕ, zero, suc, ◌+◌, ◌-◌, ◌*◌, ◌≤◌, ◌<◌, ◌≡◌, refl, sym, ap, ◌∙◌, arith}
use dmrlib.Common.{Bool, true, false, List, if◌then◌else◌, get_or_ext, length, replicate}
use dmrlib.Common.{All, fill, length-fill, length-replicate, get_or-fill_hit, get_or-fill_miss}
use native.Mathlib.Decide.{dec_lt}
use dmrlib.Bits.{bytes_to_bits_within, bits_to_bytes_within}
use dmrlib.Bits.Convert.{IsByte, length-bytes_to_bits_within}
use dmrlib.Bits.RoundTrip.{
  bits_to_bytes_within-bytes_to_bits_within, bytes_to_bits_within-bits_to_bytes_within,
}
use dmrlib.Fec.Bptc.{
  Bptc, at, take_info, put_info, deinterleave, interleave, check_columns, check_rows,
}
use dmrlib.Fec.Bptc.{extract_rows, extract, encode_rows, encode_columns, product_matrix}
use dmrlib.Fec.Bptc.{bptc_196_96_decode, bptc_196_96_encode}
use dmrlib.Fec.Bptc.Matrix.{at-received, length-put_info, length-deinterleave}
use dmrlib.Fec.Bptc.Rows.{IsRow, IsRow-local, first_of}
use dmrlib.Fec.Bptc.RowLoop.{Rows, encode_rows-Rows, check_rows_lem}
use dmrlib.Fec.Bptc.Columns.{Columns, IsColumn, encode_columns-Columns, check_columns_lem}

-- The 96 bits of a message.
abbrev bits_of : List ℕ → List Bool
bits_of message = bytes_to_bits_within message 12 (replicate 96 false) 96

-- What makes a matrix the product code of `data_bits`, as far as the decoder looks.
record IsProduct (data_bits deint : List Bool) : Type 0 where
  same_length : length deint ≡ 196
  rows : (r : ℕ) → r < 9 → IsRow data_bits deint r
  checked_column : IsColumn deint 1

product_matrix-IsProduct : (message : List ℕ) → IsProduct (bits_of message) (product_matrix message)
unfolding product_matrix
product_matrix-IsProduct message =
    let made : Rows (bits_of message) (replicate 196 false)
        (encode_rows (bits_of message) 9 0 0 (replicate 196 false)) 0 9 =
      encode_rows-Rows (bits_of message) 9 0 0 (replicate 196 false) refl (omega arith) refl
        (λ col lt. clear col lt) in
    let rows = encode_rows (bits_of message) 9 0 0 (replicate 196 false) in
    let next : Columns rows (encode_columns 15 0 (replicate 15 false) rows) 0 15 =
      encode_columns-Columns 15 0 (replicate 15 false) rows made.same_length refl (omega arith) in
    record {
      same_length = next.same_length;
      rows = λ r lt.
          IsRow-local (λ col l. next.top (r * 15 + col) (omega arith))
            (made.made r (omega arith) (omega arith));
      checked_column = next.made 1 (omega arith) (omega arith);
    }
  where
    clear : (col : ℕ) → col < first_of 0 → at (replicate 196 false) (0 * 15 + col) ≡ false
    clear zero lt = refl
    clear (suc zero) lt = refl
    clear (suc (suc zero)) lt = refl
    clear (suc (suc (suc col))) lt = absurd (ground arith)

length-extract_rows :
    (left row i : ℕ) (deint out : List Bool)
    → length (extract_rows left row i deint out) ≡ length out
unfolding extract_rows
length-extract_rows zero row i deint out = refl
length-extract_rows (suc left) row i deint out =
    length-extract_rows left (row + 1) (i + 11) deint _
    ∙ length-fill (λ col. i + col) (λ col. at deint (row * 15 + col)) 11 0 out

module _ (data_bits deint : List Bool) (good : IsProduct data_bits deint) where
  at-extract_rows :
      (left row i : ℕ) (out : List Bool)
      → 0 < row
      → row + left ≤ 9
      → i ≡ row * 11 - 3
      → length out ≡ 96
      → ((k : ℕ) → k < i → at out k ≡ at data_bits k)
      → (k : ℕ) → k < i + left * 11
      → at (extract_rows left row i deint out) k ≡ at data_bits k
  unfolding extract_rows
  at-extract_rows zero row i out pos lim start len before k lt = before k (omega arith)
  at-extract_rows (suc left) row i out pos lim start len before k lt =
      at-extract_rows left (row + 1) (i + 11) _ (omega arith) (omega arith) (omega arith)
        (length-fill (λ col. i + col) (λ col. at deint (row * 15 + col)) 11 0 out ∙ len)
        (λ j l. elim (dec_lt j i) [
          | yes p ↦
              get_or-fill_miss (λ col. i + col) (λ col. at deint (row * 15 + col)) 11 0 j false out
                (λ m lo hi q. omega arith)
              ∙ before j p
          | no p ↦ stored j (omega arith) l
        ])
        k (omega arith)
    where
      within : (j : ℕ) → i ≤ j → j < i + 11 → first_of row ≤ j - i
      within j lo hi = ground arith

      stored :
          (j : ℕ)
          → i ≤ j
          → j < i + 11
          → at (fill 11 0 (λ col. i + col) (λ col. at deint (row * 15 + col)) out) j
            ≡ at data_bits j
      stored j lo hi =
          ap (at (fill 11 0 (λ col. i + col) (λ col. at deint (row * 15 + col)) out)) {x = j}
            {y = i + (j - i)} (omega arith)
          ∙ get_or-fill_hit (λ col. i + col) (λ col. at deint (row * 15 + col)) 11 0 (j - i) false
              out (omega arith) (omega arith) (omega arith) (λ m l h q. omega arith)
          ∙ IsRow.holds (good.rows row (omega arith)) (j - i) (within j lo hi) (omega arith)
          ∙ ap (at data_bits) {x = row * 11 + (j - i) - 3} {y = j} (omega arith)

  extract_lem : length data_bits ≡ 96 → extract deint ≡ data_bits
  unfolding extract
  extract_lem len = get_or_ext false _ data_bits (length_out ∙ sym len) (λ k lt.
      at-extract_rows 8 1 8 _ (omega arith) (omega arith) refl
        (length-fill (λ i. i) (λ i. at deint (3 + i)) 8 0 (replicate 96 false))
        (λ j l.
          get_or-fill_hit (λ i. i) (λ i. at deint (3 + i)) 8 0 j false (replicate 96 false)
            (omega arith) (omega arith) (omega (arith, length-replicate 96 false))
            (λ m lo hi q. omega arith)
          ∙ ap (at deint) {x = 3 + j} {y = 0 * 15 + (3 + j)} (omega arith)
          ∙ IsRow.holds (good.rows 0 (omega arith)) (3 + j) (ground arith) (omega arith)
          ∙ ap (at data_bits) {x = 0 * 11 + (3 + j) - 3} {y = j} (omega arith))
        k (omega (arith, length_out)))
    where
      length_out :
          length (
            extract_rows 8 1 8 deint
              (fill 8 0 (λ i. i) (λ i. at deint (3 + i)) (replicate 96 false)))
          ≡ 96
      length_out =
          length-extract_rows 8 1 8 deint _
          ∙ length-fill (λ i. i) (λ i. at deint (3 + i)) 8 0 (replicate 96 false)

-- What the decoder does with the two arrays that it has filled.
abbrev after : (ℕ → ℕ) → List Bool → List Bool → List Bool → List ℕ → Bool × Bptc × List ℕ
after beyond p raw' deint out =
    let (columns_ok, deint1) = check_columns beyond p 15 deint in
    let (rows_ok, deint2) = check_rows beyond p 9 0 deint1 in
    if columns_ok
    then (if rows_ok
        then (
          true,
          record { raw = raw'; deinterleaved_bits = deint2 },
          bits_to_bytes_within (extract deint2) 96 out 12,
        )
        else (false, record { raw = raw'; deinterleaved_bits = deint2 }, out))
    else (false, record { raw = raw'; deinterleaved_bits = deint1 }, out)

after_lem :
    (beyond : ℕ → ℕ) (p raw' : List Bool) (message out : List ℕ)
    → 4 ≤ length p
    → length message ≡ 12
    → length out ≡ 12
    → All IsByte message
    → after beyond p raw' (product_matrix message) out
      ≡ (true, record { raw = raw'; deinterleaved_bits = product_matrix message }, message)
after_lem beyond p raw' message out room lm lo small =
    let good = product_matrix-IsProduct message in
    let rows_pass : check_rows beyond p 9 0 (product_matrix message)
        ≡ (true, product_matrix message) =
      check_rows_lem beyond p (bits_of message) 9 0 (product_matrix message) room
        (λ r lo lt. IsProduct.rows good r (omega arith)) in
    let same_message : bits_to_bytes_within (extract (product_matrix message)) 96 out 12 ≡ message =
      ap (λ t. bits_to_bytes_within t 96 out 12)
        (extract_lem (bits_of message) (product_matrix message) good
          (length-bytes_to_bits_within message 12 (replicate 96 false) 96))
      ∙ bits_to_bytes_within-bytes_to_bits_within message 12 (replicate 96 false) out lm refl lo
          small in
    rw
      (
        check_columns_lem beyond p 15 (product_matrix message) room (IsProduct.checked_column good),
        rows_pass,
        same_message,
      )
      refl

-- For every message of twelve bytes, whatever the arrays held before and whatever follows the
-- generator tables in memory, the decoder passes the encoded packet and returns the message.
pub bptc_196_96_decode-encode :
    (beyond : ℕ → ℕ) (p bits : List Bool) (packet message out : List ℕ) (sent received : Bptc)
    → 4 ≤ length p
    → length bits ≡ 264
    → length packet ≡ 33
    → length message ≡ 12
    → length out ≡ 12
    → length sent.raw ≡ 196
    → length received.raw ≡ 196
    → length received.deinterleaved_bits ≡ 196
    → All IsByte message
    → bptc_196_96_decode beyond p (bptc_196_96_encode bits packet sent message).1 received out ≡ (
      true,
      record {
        raw = take_info (put_info (interleave (product_matrix message) sent.raw) bits) received.raw;
        deinterleaved_bits = product_matrix message;
      },
      message,
    )
unfolding bptc_196_96_decode bptc_196_96_encode
bptc_196_96_decode-encode beyond p bits packet message out sent received room lb lp lm lo ls lr ld
      small =
    let matrix = product_matrix message in
    let good = product_matrix-IsProduct message in
    let sent_bits = put_info (interleave matrix sent.raw) bits in
    let raw' = take_info sent_bits received.raw in
    ap
      (λ b.
        after beyond p (take_info b received.raw)
          (deinterleave (take_info b received.raw) received.deinterleaved_bits) out)
      (bytes_to_bits_within-bits_to_bytes_within sent_bits 33 packet (replicate 264 false)
        (length-put_info (interleave matrix sent.raw) bits ∙ lb) lp refl)
    ∙ ap (λ d. after beyond p raw' d out)
        (get_or_ext false (deinterleave raw' received.deinterleaved_bits) matrix
          (length-deinterleave raw' received.deinterleaved_bits
            ∙ ld
            ∙ sym (IsProduct.same_length good))
          (λ j lt.
            at-received matrix sent.raw bits received.raw received.deinterleaved_bits j ls lb lr ld
              (omega (arith, length-deinterleave raw' received.deinterleaved_bits))))
    ∙ after_lem beyond p raw' message out room lm lo small
