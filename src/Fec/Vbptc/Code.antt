-- ===== src/Fec/Vbptc/Code.antt =====
-- src/dmr/fec/vbptc_16_11.c: reading fragments, decoding and encoding.
use dmrlib.Common.{
  ℕ, zero, suc, ◌+◌, ◌-◌, ◌*◌, min, Bool, false, ◌||◌, Option, none, some, List, get_or, set, fill,
  ltb, leb, ◌==◌, if◌then◌else◌, u8, u16,
}
use dmrlib.Fec.Vbptc.{Vbptc, parity_bits, wipe, matrix_free}

-- What the loops of a fragment change.
pub record Cursor : Type 0 where
  pub bits : List Bool
  pub pos : ℕ
  pub offset : ℕ

unfoldable pub take_cell : Bool → Cursor → Cursor
take_cell bit c =
    if c.offset == 0
    then record c { bits = set c.bits c.pos bit; pos = u16 (c.pos + 1) }
    else record c { offset = c.offset - 1 }

unfoldable pub fragment_column : ℕ → ℕ → ℕ → List Bool → ℕ → Cursor → Cursor
fragment_column zero row col matrix bitlen c = c
fragment_column (suc left) row col matrix bitlen c =
    let rest =
      fragment_column left (row + 1) col matrix bitlen
        (take_cell (get_or matrix (row * 16 + col) false) c) in
    if leb bitlen c.pos then c else rest

unfoldable pub fragment_from : ℕ → ℕ → Vbptc → ℕ → Cursor → Cursor
fragment_from zero col v bitlen c = c
fragment_from (suc left) col v bitlen c =
    fragment_from left (col + 1) v bitlen (fragment_column v.rows 0 col v.matrix bitlen c)

unfoldable pub get_fragment : Vbptc → List Bool → ℕ → ℕ → List Bool
get_fragment v bits offset len =
    (fragment_from 16 0 v (min (v.rows * 16) len)
      (record { bits = bits; pos = 0; offset = offset })).bits

unfoldable pub decode_row : ℕ → ℕ → ℕ → ℕ → List Bool → List Bool → List Bool
decode_row zero row col len matrix bits = bits
decode_row (suc left) row col len matrix bits =
    let rest =
      decode_row left row (col + 1) len matrix
        (set bits (row * 11 + col) (get_or matrix (row * 16 + col) false)) in
    if leb len (row * 11 + col) then bits else rest

unfoldable pub decode_rows : ℕ → ℕ → ℕ → List Bool → List Bool → List Bool
decode_rows zero row len matrix bits = bits
decode_rows (suc left) row len matrix bits =
    decode_rows left (row + 1) len matrix (decode_row 11 row 0 len matrix bits)

-- None is the error of an invalid argument.
unfoldable pub vbptc_decode : Vbptc → List Bool → ℕ → Option (List Bool)
vbptc_decode v bits len =
    if v.rows == 0 then none else some (decode_rows (v.rows - 1) 0 len v.matrix bits)

unfoldable pub place_bit : Vbptc → Bool → Vbptc
place_bit v bit =
    let matrix = set v.matrix (v.col + v.row * 16) bit in
    if u8 (v.col + 1) == 11
    then record v { matrix = matrix; row = u8 (v.row + 1); col = 0 }
    else record v { matrix = matrix; col = u8 (v.col + 1) }

-- `for (col = 0; col < bitlen; col++)` with a counter of eight bits and fuel for its rounds; none
-- when the fuel is used up.
unfoldable pub place_from : ℕ → ℕ → ℕ → List Bool → Vbptc → Option Vbptc
place_from zero col bitlen bits v = none
place_from (suc fuel) col bitlen bits v =
    let rest = place_from fuel (u8 (col + 1)) bitlen bits (place_bit v (get_or bits col false)) in
    if ltb col bitlen then rest else some v

unfoldable pub encode_parity_rows : ℕ → ℕ → List Bool → List Bool
encode_parity_rows zero row matrix = matrix
encode_parity_rows (suc left) row matrix =
    encode_parity_rows left (row + 1) (
      fill 5 0 (λ i. row * 16 + 11 + i) (λ i. get_or (parity_bits matrix (row * 16)) i false)
        matrix)

-- `parity = parity + matrix[row * 16 + col] % 2` on `bool`, which is or.
unfoldable pub column_or : ℕ → ℕ → ℕ → List Bool → Bool → Bool
column_or zero row col matrix parity = parity
column_or (suc left) row col matrix parity =
    column_or left (row + 1) col matrix (parity || get_or matrix (row * 16 + col) false)

unfoldable pub encode_parity_columns : ℕ → ℕ → ℕ → List Bool → List Bool
encode_parity_columns zero col rows matrix = matrix
encode_parity_columns (suc left) col rows matrix =
    encode_parity_columns left (col + 1) rows
      (set matrix ((rows - 1) * 16 + col) (column_or (rows - 1) 0 col matrix false))

unfoldable pub finish : Option Vbptc → Option Vbptc
finish none = none
finish (some v) = some (record v {
  matrix = encode_parity_columns 16 0 v.rows (encode_parity_rows (v.rows - 1) 0 v.matrix);
})

-- What the call returns.
pub data Encoded : Type 0 where
  rejected endless : Encoded
  encoded : Vbptc → Encoded

unfoldable pub encoded_as : Option Vbptc → Encoded
encoded_as none = endless
encoded_as (some v) = encoded v

-- The counter takes at most 256 values, so that 257 rounds of fuel are enough for one that ends.
unfoldable pub vbptc_encode : Vbptc → List Bool → ℕ → Encoded
vbptc_encode v bits len =
    let start = wipe v in
    let placed = place_from 257 0 (min len (matrix_free start)) bits start in
    if len == 0 then rejected else encoded_as (finish placed)
