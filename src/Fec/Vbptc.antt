-- ===== src/Fec/Vbptc.antt =====
-- src/dmr/fec/vbptc_16_11.c: rows of Hamming (16, 11) words in a matrix of a variable number of
-- rows, with a row of column parities at the end. The checks for NULL and the log are left out.
pub mod Code
pub mod Add
pub mod Place
pub mod RoundTrip
mod Tests
use dmrlib.Common.{
  ℕ, zero, suc, ◌+◌, ◌-◌, ◌*◌, ◌%◌, ◌^◌, min, Bool, true, false, not, ◌&&◌, ◌||◌, Option, none,
  some, List, [], ◌∷◌, get_or, set, replicate, fill, ltb, leb, ◌==◌, same, ◌⊕◌, if◌then◌else◌, u8,
  u16,
}

-- `dmr_vbptc_16_11`.
pub record Vbptc : Type 0 where
  pub matrix : List Bool
  pub row : ℕ
  pub col : ℕ
  pub rows : ℕ

abbrev pub generator_matrix : List Bool
generator_matrix =
    true ∷ false ∷ false ∷ true ∷ true ∷ true ∷ true ∷ false ∷ true ∷ false ∷ true ∷ true ∷ true
    ∷ true ∷ true ∷ true ∷ true ∷ true ∷ false ∷ false ∷ false ∷ true ∷ true ∷ true ∷ false ∷ true
    ∷ false ∷ true ∷ false ∷ true ∷ false ∷ true ∷ false ∷ true ∷ true ∷ true ∷ false ∷ true ∷ true
    ∷ false ∷ true ∷ true ∷ false ∷ false ∷ true ∷ false ∷ true ∷ true ∷ false ∷ true ∷ false
    ∷ false ∷ true ∷ true ∷ true ∷ true ∷ false ∷ false ∷ false ∷ false ∷ false ∷ true ∷ false
    ∷ false ∷ false ∷ false ∷ false ∷ true ∷ false ∷ false ∷ false ∷ false ∷ false ∷ true ∷ false
    ∷ false ∷ false ∷ false ∷ false ∷ true ∷ []

-- The five parities of the word that begins at `o`.
unfoldable pub parity_bits : List Bool → ℕ → List Bool
parity_bits matrix o =
    let b : ℕ → Bool = λ i. get_or matrix (o + i) false in
    (b 0 ⊕ b 1 ⊕ b 2 ⊕ b 3 ⊕ b 5 ⊕ b 7 ⊕ b 8)
    ∷ (b 1 ⊕ b 2 ⊕ b 3 ⊕ b 4 ⊕ b 6 ⊕ b 8 ⊕ b 9)
    ∷ (b 2 ⊕ b 3 ⊕ b 4 ⊕ b 5 ⊕ b 7 ⊕ b 9 ⊕ b 10)
    ∷ (b 0 ⊕ b 1 ⊕ b 2 ⊕ b 4 ⊕ b 6 ⊕ b 7 ⊕ b 10)
    ∷ (b 0 ⊕ b 2 ⊕ b 5 ⊕ b 6 ⊕ b 8 ⊕ b 9 ⊕ b 10)
    ∷ []

unfoldable pub row_matches : List Bool → ℕ → Bool
row_matches vector row =
    same (get_or generator_matrix (row * 5 + 0) false) (get_or vector 0 false)
    && same (get_or generator_matrix (row * 5 + 1) false) (get_or vector 1 false)
    && same (get_or generator_matrix (row * 5 + 2) false) (get_or vector 2 false)
    && same (get_or generator_matrix (row * 5 + 3) false) (get_or vector 3 false)
    && same (get_or generator_matrix (row * 5 + 4) false) (get_or vector 4 false)

-- `left` rounds of the loop from `row`.
unfoldable pub position_from : List Bool → ℕ → ℕ → Option ℕ
position_from vector zero row = none
position_from vector (suc left) row =
    let rest = position_from vector left (row + 1) in
    if row_matches vector row then some row else rest

-- None is -1.
unfoldable pub error_position : List Bool → Option ℕ
error_position vector = position_from vector 16 0

unfoldable pub row_from : List Bool → ℕ → ℕ → ℕ → Bool
row_from matrix o zero offset = true
row_from matrix o (suc left) offset =
    let rest = row_from matrix o left (offset + 1) in
    if get_or (parity_bits matrix o) offset false ⊕ get_or matrix (o + (11 + offset)) false
    then false
    else rest

unfoldable pub check_row : List Bool → ℕ → Bool
check_row matrix o = row_from matrix o 5 0

-- A wrong row: the matrix, and whether the row is now right.
unfoldable pub repair_row : List Bool → ℕ → Option ℕ → Bool × List Bool
repair_row matrix o none = (false, matrix)
repair_row matrix o (some error) =
    let flipped = set matrix (o + error) (not (get_or matrix (o + error) false)) in
    (check_row flipped o, flipped)

unfoldable pub repair_rows : ℕ → ℕ → Bool → List Bool → Bool × List Bool
repair_rows zero row res matrix = (res, matrix)
repair_rows (suc left) row res matrix =
    let (fixed, next) =
      if check_row matrix (row * 16)
      then (true, matrix)
      else repair_row matrix (row * 16) (error_position (parity_bits matrix (row * 16))) in
    repair_rows left (row + 1) (res && fixed) next

-- `parity = (parity + matrix[row * 16 + col]) % 2` on `bool`.
unfoldable pub column_xor : ℕ → ℕ → ℕ → List Bool → Bool → Bool
column_xor zero row col matrix parity = parity
column_xor (suc left) row col matrix parity =
    column_xor left (row + 1) col matrix (parity ⊕ get_or matrix (row * 16 + col) false)

unfoldable pub columns_from : ℕ → ℕ → ℕ → List Bool → Bool
columns_from zero col rows matrix = true
columns_from (suc left) col rows matrix =
    let rest = columns_from left (col + 1) rows matrix in
    if same (column_xor (rows - 1) 0 col matrix false) (get_or matrix ((rows - 1) * 16 + col) false)
    then rest
    else false

unfoldable pub check_and_repair : Vbptc → Bool × Vbptc
check_and_repair v =
    if ltb v.rows 2
    then (false, v)
    else (let (res, matrix) = repair_rows (v.rows - 1) 0 true v.matrix in
        (columns_from 16 0 v.rows matrix && res, record v { matrix = matrix }))

-- `given` is whether talloc gives the struct and `memory` is the matrix that it gives, which is not
-- cleared.
unfoldable pub vbptc_new : Bool → Option (List Bool) → ℕ → Option Vbptc
vbptc_new false memory rows = none
vbptc_new true none rows = none
vbptc_new true (some matrix) rows = some (record { matrix = matrix; row = 0; col = 0; rows = rows })

unfoldable pub wipe : Vbptc → Vbptc
wipe v = record v { row = 0; col = 0; matrix = fill (v.rows * 16) 0 (λ i. i) (λ _. false) v.matrix }

-- The difference is converted to 64 bits.
unfoldable pub matrix_free : Vbptc → ℕ
matrix_free v = (v.rows * 16 + (2 ^ 64 - (v.col * v.rows + v.row))) % 2 ^ 64

-- One round of the loop of `dmr_vbptc_16_11_add`.
unfoldable pub add_bit : Vbptc → Bool → Vbptc
add_bit v bit =
    let matrix = set v.matrix (v.col + v.row * 16) bit in
    if u8 (v.row + 1) == v.rows
    then record v { matrix = matrix; row = 0; col = u8 (v.col + 1) }
    else record v { matrix = matrix; row = u8 (v.row + 1) }

unfoldable pub add_from : ℕ → ℕ → List Bool → Vbptc → Vbptc
add_from zero i bits v = v
add_from (suc left) i bits v = add_from left (i + 1) bits (add_bit v (get_or bits i false))

-- False is -1; the number of bits is cut to eight bits.
unfoldable pub vbptc_add : Vbptc → List Bool → ℕ → Bool × Vbptc
vbptc_add v bits len =
    if matrix_free v == 0
    then (false, v)
    else (true, add_from (u8 (min len (matrix_free v))) 0 bits v)
