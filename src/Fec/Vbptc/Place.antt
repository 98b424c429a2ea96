-- ===== src/Fec/Vbptc/Place.antt =====
-- src/dmr/fec/vbptc_16_11.c: where the encoder puts its bits and its parities.
use dmrlib.Common.{
  ℕ, zero, suc, ◌+◌, ◌-◌, ◌*◌, ◌/◌, ◌%◌, ◌<◌, ◌≤◌, ◌≡◌, refl, sym, ap, ap₂, ◌∙◌, arith, inl, inr,
  Bool, true, false, Bool-cases, ◌==◌, ==_iff, List, some, length, length-fill, get_or,
  get_or-set_ne, get_or-fill_miss, get_or-fill_hit, fill, set, if-then, if-else, ltb, u8, ◌⊕◌,
}
use native.Mathlib.Decide.{ℕ_discrete}
use dmrlib.Fec.Vbptc.{Vbptc, parity_bits, row_from, check_row}
use dmrlib.Fec.Vbptc.Code.{place_bit, place_from, encode_parity_rows, encode_parity_columns}

-- The cell of a data bit.
abbrev pub place : ℕ → ℕ
place i = i % 11 + i / 11 * 16

-- The encoder after `i` bits.
abbrev pub placed : ℕ → ℕ → List Bool → Vbptc
placed rows i matrix = record { matrix = matrix; row = i / 11; col = i % 11; rows = rows }

place_bit-placed :
    (rows i : ℕ) (matrix : List Bool) (bit : Bool)
    → i < 255
    → place_bit (placed rows i matrix) bit ≡ placed rows (i + 1) (set matrix (place i) bit)
unfolding place_bit
place_bit-placed rows i matrix bit small = elim (Bool-cases (u8 (i % 11 + 1) == 11)) [
  | inl last ↦
      let e : u8 (i % 11 + 1) ≡ 11 = (==_iff (u8 (i % 11 + 1)) 11).0 last in
      rw last (
        ap₂
          (λ (r c : ℕ). record { matrix = set matrix (place i) bit; row = r; col = c; rows = rows })
          (omega arith) (omega arith))
  | inr more ↦ rw more (
      ap₂ (λ (r c : ℕ). record { matrix = set matrix (place i) bit; row = r; col = c; rows = rows })
        (same_row i more) (next i small more))
]
  where
    same_row : (i : ℕ) → (u8 (i % 11 + 1) == 11) ≡ false → i / 11 ≡ (i + 1) / 11
    same_row i h = ground arith

    next : (i : ℕ) → i < 255 → (u8 (i % 11 + 1) == 11) ≡ false → u8 (i % 11 + 1) ≡ (i + 1) % 11
    next i p h = ground arith

-- The loop ends and is a loop of stores.
pub place_from-fill :
    (fuel left i rows : ℕ) (bits matrix : List Bool)
    → left < fuel
    → i + left < 256
    → place_from fuel i (i + left) bits (placed rows i matrix)
      ≡ some (placed rows (i + left) (fill left i place (λ j. get_or bits j false) matrix))
unfolding place_from fill
place_from-fill zero left i rows bits matrix enough small = absurd (omega arith)
place_from-fill (suc fuel) zero i rows bits matrix enough small =
    if-else (ltb i (i + 0)) _ _ (ground arith)
    ∙ ap (λ k. some (placed rows k matrix)) {x = i} {y = i + 0} (omega arith)
place_from-fill (suc fuel) (suc left) i rows bits matrix enough small =
    let stored = set matrix (place i) (get_or bits i false) in
    if-then (ltb i (i + suc left)) _ _ (ground arith)
    ∙ ap
        (λ k.
          place_from fuel k (i + suc left) bits
            (place_bit (placed rows i matrix) (get_or bits i false)))
        {x = u8 (i + 1)} {y = i + 1} (omega arith)
    ∙ ap
        (λ n.
          place_from fuel (i + 1) n bits (place_bit (placed rows i matrix) (get_or bits i false)))
        {x = i + suc left} {y = i + 1 + left} (omega arith)
    ∙ ap (place_from fuel (i + 1) (i + 1 + left) bits)
        (place_bit-placed rows i matrix (get_or bits i false) (omega arith))
    ∙ place_from-fill fuel left (i + 1) rows bits stored (omega arith) (omega arith)
    ∙ ap (λ k. some (placed rows k (fill left (i + 1) place (λ j. get_or bits j false) stored)))
        {x = i + 1 + left} {y = i + suc left} (omega arith)

-- Cells that the rows of parities leave.
encode_parity_rows_before :
    (left row k : ℕ) (m : List Bool)
    → k < row * 16
    → get_or (encode_parity_rows left row m) k false ≡ get_or m k false
unfolding encode_parity_rows
encode_parity_rows_before zero row k m h = refl
encode_parity_rows_before (suc left) row k m h =
    encode_parity_rows_before left (row + 1) k _ (omega arith)
    ∙ get_or-fill_miss _ _ 5 0 k false m (λ j lo hi e. omega arith)

pub encode_parity_rows_data :
    (left row q c : ℕ) (m : List Bool)
    → c < 11
    → get_or (encode_parity_rows left row m) (q * 16 + c) false ≡ get_or m (q * 16 + c) false
unfolding encode_parity_rows
encode_parity_rows_data zero row q c m h = refl
encode_parity_rows_data (suc left) row q c m h =
    encode_parity_rows_data left (row + 1) q c _ h
    ∙ get_or-fill_miss _ _ 5 0 (q * 16 + c) false m (λ j lo hi e. omega arith)

pub length-encode_parity_rows :
    (left row : ℕ) (m : List Bool) → length (encode_parity_rows left row m) ≡ length m
unfolding encode_parity_rows
length-encode_parity_rows zero row m = refl
length-encode_parity_rows (suc left) row m =
    length-encode_parity_rows left (row + 1) _ ∙ length-fill _ _ 5 0 m

-- The parities depend on the data bits.
pub parity_bits_ext :
    (m w : List Bool) (o : ℕ)
    → ((c : ℕ) → c < 11 → get_or m (o + c) false ≡ get_or w (o + c) false)
    → parity_bits m o ≡ parity_bits w o
unfolding parity_bits
parity_bits_ext m w o h =
    rw
      (
        h 0 (omega arith),
        h 1 (omega arith),
        h 2 (omega arith),
        h 3 (omega arith),
        h 4 (omega arith),
        h 5 (omega arith),
        h 6 (omega arith),
        h 7 (omega arith),
        h 8 (omega arith),
        h 9 (omega arith),
        h 10 (omega arith),
      )
      refl

pub encode_parity_rows_parity :
    (left row q c : ℕ) (m : List Bool)
    → row ≤ q
    → q < row + left
    → c < 5
    → (row + left) * 16 ≤ length m
    → get_or (encode_parity_rows left row m) (q * 16 + 11 + c) false
      ≡ get_or (parity_bits m (q * 16)) c false
unfolding encode_parity_rows
encode_parity_rows_parity zero row q c m lo hi small fits = absurd (omega arith)
encode_parity_rows_parity (suc left) row q c m lo hi small fits = elim (ℕ_discrete row q) [
  | yes e ↦ rw (sym e) (
      encode_parity_rows_before left (row + 1) (row * 16 + 11 + c) _ (omega arith)
      ∙ get_or-fill_hit (λ i. row * 16 + 11 + i) (λ i. get_or (parity_bits m (row * 16)) i false) 5
          0 c false m (omega arith) (omega arith) (omega arith)
          (λ j above below clash. omega arith))
  | no e ↦
      encode_parity_rows_parity left (row + 1) q c _ (omega arith) (omega arith) small
        (omega (arith, length-fill _ _ 5 0 m))
      ∙ ap (λ t. get_or t c false)
          (parity_bits_ext _ m (q * 16)
            (λ d below. get_or-fill_miss _ _ 5 0 (q * 16 + d) false m (λ j a b clash. omega arith)))
]

pub encode_parity_columns_before :
    (left col rows k : ℕ) (m : List Bool)
    → k < (rows - 1) * 16
    → get_or (encode_parity_columns left col rows m) k false ≡ get_or m k false
unfolding encode_parity_columns
encode_parity_columns_before zero col rows k m h = refl
encode_parity_columns_before (suc left) col rows k m h =
    encode_parity_columns_before left (col + 1) rows k _ h
    ∙ get_or-set_ne m ((rows - 1) * 16 + col) k _ false (λ e. omega arith)

-- A row whose parities are stored after it is right.
row_from-true :
    (m : List Bool) (o left i : ℕ)
    → ((c : ℕ)
        → i ≤ c
        → c < i + left
        → get_or m (o + (11 + c)) false ≡ get_or (parity_bits m o) c false)
    → row_from m o left i ≡ true
unfolding row_from
row_from-true m o zero i h = refl
row_from-true m o (suc left) i h =
    rw (h i (omega arith) (omega arith), differ (get_or (parity_bits m o) i false))
      (row_from-true m o left (i + 1) (λ c lo hi. h c (omega arith) (omega arith)))
  where
    differ : (b : Bool) → (b ⊕ b) ≡ false
    differ true = refl
    differ false = refl

pub check_row-true :
    (m : List Bool) (o : ℕ)
    → ((c : ℕ) → c < 5 → get_or m (o + (11 + c)) false ≡ get_or (parity_bits m o) c false)
    → check_row m o ≡ true
unfolding check_row
check_row-true m o h = row_from-true m o 5 0 (λ c lo hi. h c (omega arith))
