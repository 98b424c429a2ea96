-- ===== src/Fec/Vbptc/Add.antt =====
-- src/dmr/fec/vbptc_16_11.c: bursts fill the matrix column by column and stay inside of it.
use dmrlib.Common.{
  ℕ, zero, suc, ◌+◌, ◌-◌, ◌*◌, ◌<◌, ◌≤◌, min, ◌≡◌, ◌≢◌, ◌↔◌, refl, sym, ap, ap₂, ◌∙◌, ◌⊎◌, arith,
  inl, inr, set, get_or-set_self, get_or-set_ne, Bool, true, false, Bool-cases, ◌==◌, ==_iff, List,
  length, length-set, get_or, u8,
}
use native.Mathlib.Nat.{suc-mul}
use dmrlib.Fec.Vbptc.{Vbptc, matrix_free, add_bit, add_from, vbptc_add}

-- The next place is inside of the matrix, or just past its end.
pub record IsVbptc (v : Vbptc) : Type 0 where
  pub size : length v.matrix ≡ v.rows * 16
  pub some_rows : 0 < v.rows
  pub few_rows : v.rows < 256
  pub in_column : v.row < v.rows
  pub in_matrix : v.col * v.rows + v.row ≤ 16 * v.rows

-- The number of cells that are filled.
unfoldable pub filled : Vbptc → ℕ
filled v = v.col * v.rows + v.row

col-lt : (v : Vbptc) → IsVbptc v → filled v < 16 * v.rows → v.col < 16
unfolding filled
col-lt v good h = grind arith

-- Two places of one number are one place.
same_place :
    (a b r s rows : ℕ) → r < rows → s < rows → a * rows + r ≡ b * rows + s → (a ≡ b) × (r ≡ s)
same_place zero zero r s rows h k e = (refl, omega arith)
same_place zero (suc b) r s rows h k e = absurd (omega (arith, suc-mul b rows))
same_place (suc a) zero r s rows h k e = absurd (omega (arith, suc-mul a rows))
same_place (suc a) (suc b) r s rows h k e =
    let below = same_place a b r s rows h k (omega (arith, suc-mul a rows, suc-mul b rows)) in
    (ap suc below.0, below.1)

-- One more bit goes into a cell of the matrix, and the other cells are kept.
record IsAdded (v w : Vbptc) (bit : Bool) : Type 0 where
  good : IsVbptc w
  one_more : filled w ≡ suc (filled v)
  same_rows : w.rows ≡ v.rows
  hit :
      (c r : ℕ) → r < v.rows → c * v.rows + r ≡ filled v → get_or w.matrix (c + r * 16) false ≡ bit
  miss :
      (c r : ℕ)
      → c < 16
      → r < v.rows
      → c * v.rows + r ≢ filled v
      → get_or w.matrix (c + r * 16) false ≡ get_or v.matrix (c + r * 16) false

inside : (v : Vbptc) → IsVbptc v → filled v < 16 * v.rows → v.col + v.row * 16 < length v.matrix
inside v good h = omega (arith, col-lt v good h, good.size, good.in_column)

hit_cell :
    (v : Vbptc) (bit : Bool) (c r : ℕ)
    → IsVbptc v
    → filled v < 16 * v.rows
    → r < v.rows
    → c * v.rows + r ≡ filled v
    → get_or (set v.matrix (v.col + v.row * 16) bit) (c + r * 16) false ≡ bit
unfolding filled
hit_cell v bit c r good room below e =
    let place = same_place c v.col r v.row v.rows below good.in_column e in
    ap (λ k. get_or (set v.matrix (v.col + v.row * 16) bit) k false) {x = c + r * 16}
      {y = v.col + v.row * 16} (omega (arith, place.0, place.1))
    ∙ get_or-set_self v.matrix (v.col + v.row * 16) bit false (inside v good room)

miss_cell :
    (v : Vbptc) (bit : Bool) (c r : ℕ)
    → IsVbptc v
    → filled v < 16 * v.rows
    → c < 16
    → c * v.rows + r ≢ filled v
    → get_or (set v.matrix (v.col + v.row * 16) bit) (c + r * 16) false
      ≡ get_or v.matrix (c + r * 16) false
unfolding filled
miss_cell v bit c r good room small differs =
    get_or-set_ne v.matrix (v.col + v.row * 16) (c + r * 16) bit false λ e.
      let column : v.col ≡ c = omega (arith, col-lt v good room) in
      let row : v.row ≡ r = omega (arith, col-lt v good room) in
      differs (ap₂ (λ (x y : ℕ). x * v.rows + y) (sym column) (sym row))

next_column : (col row rows : ℕ) → row + 1 ≡ rows → (col + 1) * rows + 0 ≡ suc (col * rows + row)
next_column col row rows h = grind arith

add_bit-IsAdded :
    (v : Vbptc) (bit : Bool) → IsVbptc v → filled v < 16 * v.rows → IsAdded v (add_bit v bit) bit
unfolding add_bit filled
add_bit-IsAdded v bit good room = elim (Bool-cases (u8 (v.row + 1) == v.rows)) [
  | inl last ↦
      let column : u8 (v.col + 1) ≡ v.col + 1 = omega (arith, col-lt v good room) in
      let e : v.row + 1 ≡ v.rows =
        omega (arith, (==_iff (u8 (v.row + 1)) v.rows).0 last, good.in_column, good.few_rows) in
      rw (last, column)
        (record {
          good = record {
            size = length-set v.matrix (v.col + v.row * 16) bit ∙ good.size;
            some_rows = good.some_rows;
            few_rows = good.few_rows;
            in_column = good.some_rows;
            in_matrix = omega (arith, next_column v.col v.row v.rows e, room);
          };
          one_more = next_column v.col v.row v.rows e;
          same_rows = refl;
          hit = λ c r below e. hit_cell v bit c r good room below e;
          miss = λ c r small below differs. miss_cell v bit c r good room small differs;
        })
  | inr more ↦
      let e : u8 (v.row + 1) ≡ v.row + 1 = omega (arith, good.in_column, good.few_rows) in
      let below : v.row + 1 < v.rows = below_rows v more e good.in_column in
      rw (more, e)
        (record {
          good = record {
            size = length-set v.matrix (v.col + v.row * 16) bit ∙ good.size;
            some_rows = good.some_rows;
            few_rows = good.few_rows;
            in_column = below;
            in_matrix = omega (arith, room);
          };
          one_more = omega arith;
          same_rows = refl;
          hit = λ c r below e. hit_cell v bit c r good room below e;
          miss = λ c r small below differs. miss_cell v bit c r good room small differs;
        })
]
  where
    below_rows :
        (v : Vbptc)
        → (u8 (v.row + 1) == v.rows) ≡ false
        → u8 (v.row + 1) ≡ v.row + 1
        → v.row < v.rows
        → v.row + 1 < v.rows
    below_rows v h e p = ground arith

-- The `n` bits from bit `i` on go into the next cells, column after column, and the other cells are
-- kept: the cell of column `c` and row `r` is at `c + r * 16` and is filled as number
-- `c * rows + r`.
pub record IsFilled (v w : Vbptc) (bits : List Bool) (i n : ℕ) : Type 0 where
  pub kept : IsVbptc w
  pub more : filled w ≡ filled v + n
  pub same_rows : w.rows ≡ v.rows
  pub stored :
      (c r j : ℕ)
      → c < 16
      → r < v.rows
      → j < n
      → c * v.rows + r ≡ filled v + j
      → get_or w.matrix (c + r * 16) false ≡ get_or bits (i + j) false
  pub untouched :
      (c r : ℕ)
      → c < 16
      → r < v.rows
      → (c * v.rows + r < filled v) ⊎ (filled v + n ≤ c * v.rows + r)
      → get_or w.matrix (c + r * 16) false ≡ get_or v.matrix (c + r * 16) false

IsFilled-zero : (v : Vbptc) (bits : List Bool) (i n : ℕ) → IsVbptc v → n ≡ 0 → IsFilled v v bits i n
IsFilled-zero v bits i n good none_left = record {
  kept = good;
  more = omega arith;
  same_rows = refl;
  stored = λ c r j small below within e. absurd (omega arith);
  untouched = λ c r small below away. refl;
}

-- A bit, and then the bits after it.
IsFilled-suc :
    (v u w : Vbptc) (bits : List Bool) (i n : ℕ)
    → IsAdded v u (get_or bits i false)
    → IsFilled u w bits (i + 1) n
    → IsFilled v w bits i (suc n)
IsFilled-suc v u w bits i n one rest = record {
  kept = rest.kept;
  more = omega (arith, rest.more, one.one_more);
  same_rows = rest.same_rows ∙ one.same_rows;
  stored = cell;
  untouched = λ c r small below away.
      rest.untouched c r small (omega (arith, one.same_rows)) (outside c r away)
      ∙ one.miss c r small below (apart c r away);
}
  where
    number : (c r : ℕ) → c * u.rows + r ≡ c * v.rows + r
    number c r = ap (λ t. c * t + r) one.same_rows

    outside :
        (c r : ℕ)
        → (c * v.rows + r < filled v) ⊎ (filled v + suc n ≤ c * v.rows + r)
        → (c * u.rows + r < filled u) ⊎ (filled u + n ≤ c * u.rows + r)
    outside c r (inl h) = inl (omega (arith, number c r, one.one_more))
    outside c r (inr h) = inr (omega (arith, number c r, one.one_more))

    apart :
        (c r : ℕ)
        → (c * v.rows + r < filled v) ⊎ (filled v + suc n ≤ c * v.rows + r)
        → c * v.rows + r ≢ filled v
    apart c r (inl h) e = omega arith
    apart c r (inr h) e = omega arith

    cell :
        (c r j : ℕ)
        → c < 16
        → r < v.rows
        → j < suc n
        → c * v.rows + r ≡ filled v + j
        → get_or w.matrix (c + r * 16) false ≡ get_or bits (i + j) false
    cell c r zero small below within e =
        rest.untouched c r small (omega (arith, one.same_rows))
          (inl (omega (arith, number c r, one.one_more)))
        ∙ one.hit c r below (omega arith)
        ∙ ap (λ k. get_or bits k false) {x = i} {y = i + 0} (omega arith)
    cell c r (suc j) small below within e =
        rest.stored c r j small (omega (arith, one.same_rows)) (omega arith)
          (omega (arith, number c r, one.one_more))
        ∙ ap (λ k. get_or bits k false) {x = i + 1 + j} {y = i + suc j} (omega arith)

add_from-IsFilled :
    (n i : ℕ) (bits : List Bool) (v : Vbptc)
    → IsVbptc v
    → filled v + n ≤ 16 * v.rows
    → IsFilled v (add_from n i bits v) bits i n
unfolding add_from
add_from-IsFilled zero i bits v good room = IsFilled-zero v bits i 0 good refl
add_from-IsFilled (suc n) i bits v good room =
    let one = add_bit-IsAdded v (get_or bits i false) good (omega arith) in
    IsFilled-suc v (add_bit v (get_or bits i false)) _ bits i n one (
      add_from-IsFilled n (i + 1) bits (add_bit v (get_or bits i false)) one.good
        (omega (arith, one.one_more, one.same_rows)))

matrix_free-filled : (v : Vbptc) → IsVbptc v → matrix_free v ≡ 16 * v.rows - filled v
unfolding matrix_free filled
matrix_free-filled v good = omega (arith, good.in_matrix, good.few_rows)

-- Adding bits to a matrix of 1 to 255 rows whose next place is in it, or just past its end, stores as
-- many of them as there are bits or cells left, if these are fewer than 256, one after the other in
-- the next cells down the columns, changes no other cell, keeps the next place in the matrix or just
-- past its end, and is refused exactly if there is no cell left.
pub vbptc_add-IsFilled :
    (v : Vbptc) (bits : List Bool) (len : ℕ)
    → IsVbptc v
    → min len (16 * v.rows - filled v) < 256
    → IsFilled v (vbptc_add v bits len).1 bits 0 (min len (16 * v.rows - filled v))
      × (((vbptc_add v bits len).0 ≡ false) ↔ (filled v ≡ 16 * v.rows))
unfolding vbptc_add filled
vbptc_add-IsFilled v bits len good few =
    rw (matrix_free-filled v good) (elim (Bool-cases (16 * v.rows - filled v == 0)) [
      | inl full ↦ rw full (
        IsFilled-zero v bits 0 _ good (omega (arith, (==_iff _ 0).0 full)),
        ((λ h. all_filled v good ((==_iff (16 * v.rows - filled v) 0).0 full)), (λ h. refl)),
      )
      | inr room ↦
          rw (room, cut v few)
            (
              add_from-IsFilled (min len (16 * v.rows - filled v)) 0 bits v good
                  (omega (arith, fits v good)),
              ((λ h. absurd (truth h)), (λ h. absurd (not_full v room h))),
            )
    ])
  where
    fits : (v : Vbptc) → IsVbptc v → filled v ≤ 16 * v.rows
    fits v good = good.in_matrix

    all_filled : (v : Vbptc) → IsVbptc v → 16 * v.rows - filled v ≡ 0 → filled v ≡ 16 * v.rows
    all_filled v good h = omega (arith, fits v good)

    cut :
        (v : Vbptc)
        → min len (16 * v.rows - filled v) < 256
        → u8 (min len (16 * v.rows - filled v)) ≡ min len (16 * v.rows - filled v)
    cut v h = omega arith

    truth : true ≡ false → ⊥
    truth h = cc

    not_full : (v : Vbptc) → (16 * v.rows - filled v == 0) ≡ false → filled v ≡ 16 * v.rows → ⊥
    not_full v h e = ground arith
