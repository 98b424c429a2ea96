-- ===== src/Fec/Hamming/Accept.antt =====
-- The decoder accepts a word exactly when its parity bits are right, and never repairs one.
use dmrlib.Common.{
  ℕ, zero, suc, ◌+◌, ◌-◌, ◌/◌, ◌^◌, ◌≤◌, ◌<◌, ◌≡◌, ◌≢◌, refl, sym, ap, subst, ◌∙◌, arith,
}
use dmrlib.Common.{
  Bool, true, false, inl, inr, ◌↔◌, List, ◌==◌, same, if◌then◌else◌, if-then, if-else,
}
use dmrlib.Common.{
  get_or, length, length-fill, get_or-fill_hit, get_or-fill_miss, bit_or, bit_and, ◌⊕◌, Bool-cases,
  same_iff, ==_iff,
}
use dmrlib.Common.Xor.{bit_or_step}
use mathlib.Core.Bool.{false≢true}
use native.Mathlib.Decide.{ℕ_discrete}
use native.Mathlib.Nat.{one-le-pow}
use dmrlib.Fec.Hamming.{
  Hamming, Code, table, hamming_7_4_3, parity_from, parity, hamming_parity, scan_from, read_g,
}
use dmrlib.Fec.Hamming.{check_from, hamming_parity_check, hamming_encode, hamming_decode}

or-ne-zero_fuel : (n a b : ℕ) → a ≤ n → b ≤ n → bit_or a b ≡ 0 → (a ≡ 0) × (b ≡ 0)
or-ne-zero_fuel zero a b p q h = omega arith
or-ne-zero_fuel (suc n) a b p q h = omega (
  arith,
  bit_or_step a b,
  or-ne-zero_fuel n (a / 2) (b / 2) (omega arith) (omega arith) (omega (arith, bit_or_step a b)),
)

or_eq_zero : (a b : ℕ) → bit_or a b ≡ 0 → (a ≡ 0) × (b ≡ 0)
or_eq_zero a b = or-ne-zero_fuel (a + b) a b (omega arith) (omega arith)

module _ (h : Hamming) (bits : List Bool) where
  -- Every parity bit of the word is the one computed from its data bits.
  abbrev pub IsParity : Type 0
  IsParity = (i : ℕ) → i < h.n - h.k → get_or bits (i + h.k) false ≡ parity h bits i

  module _ (p : List Bool) where
    scan_zero :
        (left i pos : ℕ)
        → scan_from h bits p left i pos ≡ 0
        → (pos ≡ 0)
          × ((j : ℕ) → i ≤ j → j < i + left → get_or bits (j + h.k) false ≡ get_or p j false)
    unfolding scan_from
    scan_zero zero i pos e = (e, λ j lo hi. absurd (omega arith))
    scan_zero (suc left) i pos e =
        elim (Bool-cases (same (get_or bits (i + h.k) false) (get_or p i false))) [
          | inl ok ↦
              let rest = scan_zero left (i + 1) pos (
                sym (
                  ap (scan_from h bits p left (i + 1)) (
                    if-then (same (get_or bits (i + h.k) false) (get_or p i false)) pos
                      (bit_or pos (2 ^ i)) ok))
                ∙ e) in
              (
                rest.0,
                λ j lo hi. elim (ℕ_discrete i j) [
                  | yes q ↦
                      subst (λ t. get_or bits (t + h.k) false ≡ get_or p t false) q
                        ((same_iff _ _).0 ok)
                  | no q ↦ rest.1 j (omega arith) (omega arith)
                ],
              )
          | inr bad ↦
              let rest = scan_zero left (i + 1) (bit_or pos (2 ^ i)) (
                sym (
                  ap (scan_from h bits p left (i + 1)) (
                    if-else (same (get_or bits (i + h.k) false) (get_or p i false)) pos
                      (bit_or pos (2 ^ i)) bad))
                ∙ e) in
              absurd (omega (arith, or_eq_zero pos (2 ^ i) rest.0, one-le-pow i 2))
        ]

    scan_right :
        (left i : ℕ)
        → ((j : ℕ) → i ≤ j → j < i + left → get_or bits (j + h.k) false ≡ get_or p j false)
        → scan_from h bits p left i 0 ≡ 0
    unfolding scan_from
    scan_right zero i ok = refl
    scan_right (suc left) i ok =
        ap (scan_from h bits p left (i + 1)) (
          if-then (same (get_or bits (i + h.k) false) (get_or p i false)) 0 (bit_or 0 (2 ^ i))
            ((same_iff _ _).1 (ok i (omega arith) (omega arith))))
        ∙ scan_right left (i + 1) (λ j lo hi. ok j (omega arith) (omega arith))

    -- A scan that finds a mismatch finds it again, whatever position it starts from.
    check_from-false :
        (beyond : ℕ → ℕ) (left pos : ℕ)
        → scan_from h bits p (h.n - h.k) 0 0 ≢ 0
        → check_from h beyond bits p left pos ≡ false
    unfolding check_from
    check_from-false beyond zero pos bad = refl
    check_from-false beyond (suc left) pos bad =
        if-else (scan_from h bits p (h.n - h.k) 0 pos == 0) true _ (
          ground (
            arith,
            λ (e : scan_from h bits p (h.n - h.k) 0 pos ≡ 0).
                bad (scan_right (h.n - h.k) 0 ((scan_zero (h.n - h.k) 0 pos e).1)),
          ))
        ∙ check_from-false beyond left (read_g h beyond (scan_from h bits p (h.n - h.k) 0 pos - 1))
            bad

    check_from_iff :
        (beyond : ℕ → ℕ) (left : ℕ)
        → (check_from h beyond bits p (suc left) 0 ≡ true)
          ↔ ((j : ℕ) → j < h.n - h.k → get_or bits (j + h.k) false ≡ get_or p j false)
    unfolding check_from
    check_from_iff beyond left = (
      λ e. elim (ℕ_discrete (scan_from h bits p (h.n - h.k) 0 0) 0) [
        | yes q ↦ λ j lt. (scan_zero (h.n - h.k) 0 0 q).1 j (omega arith) (omega arith)
        | no q ↦ absurd (false≢true (sym (check_from-false beyond (suc left) 0 q) ∙ e))
      ],
      λ ok.
          if-then (scan_from h bits p (h.n - h.k) 0 0 == 0) true _
            ((==_iff _ 0).1 (scan_right (h.n - h.k) 0 (λ j lo hi. ok j (omega arith)))),
    )

    attempts_iff :
        (beyond : ℕ → ℕ) (d : ℕ)
        → 0 < d
        → (check_from h beyond bits p d 0 ≡ true)
          ↔ ((j : ℕ) → j < h.n - h.k → get_or bits (j + h.k) false ≡ get_or p j false)
    attempts_iff beyond zero pos = absurd (omega arith)
    attempts_iff beyond (suc left) pos = check_from_iff beyond left

  computed :
      (p : List Bool)
      → h.n - h.k ≤ length p
      → (i : ℕ) → i < h.n - h.k
      → get_or (hamming_parity h bits p 0) i false ≡ parity h bits i
  unfolding hamming_parity
  computed p room i lt =
      ap (λ t. get_or (hamming_parity h bits p 0) t false) {x = i} {y = 0 + i} (omega arith)
      ∙ get_or-fill_hit (λ x. 0 + x) (λ x. parity h bits x) (h.n - h.k) 0 i false p (omega arith)
          (omega arith) (omega arith) (λ m l k q. omega arith)

  pub hamming_parity_check_iff :
      (beyond : ℕ → ℕ) (p : List Bool)
      → h.n - h.k ≤ length p
      → 0 < h.d
      → (hamming_parity_check h beyond bits p ≡ true) ↔ IsParity
  unfolding hamming_parity_check
  hamming_parity_check_iff beyond p room pos =
      let same_as = attempts_iff (hamming_parity h bits p 0) beyond h.d pos in
      (
        λ e i lt. same_as.0 e i lt ∙ computed p room i lt,
        λ ok. same_as.1 (λ i lt. ok i lt ∙ sym (computed p room i lt)),
      )

-- The parity reads the data bits only.
parity_from_local :
    (h : Hamming) (v w : List Bool) (x left y : ℕ) (p : Bool)
    → ((i : ℕ) → y ≤ i → i < y + left → get_or v i false ≡ get_or w i false)
    → parity_from h v x left y p ≡ parity_from h w x left y p
unfolding parity_from
parity_from_local h v w x zero y p same_data = refl
parity_from_local h v w x (suc left) y p same_data =
    ap
      (λ t.
        parity_from h v x left (y + 1)
          (if bit_and (get_or h.g y 0) (2 ^ (h.n - h.k - x - 1)) == 0 then p else p ⊕ t))
      (same_data y (omega arith) (omega arith))
    ∙ parity_from_local h v w x left (y + 1) _ (λ i lo hi. same_data i (omega arith) (omega arith))

pub parity_local :
    (h : Hamming) (v w : List Bool) (x : ℕ)
    → ((i : ℕ) → i < h.k → get_or v i false ≡ get_or w i false)
    → parity h v x ≡ parity h w x
unfolding parity
parity_local h v w x same_data =
    parity_from_local h v w x h.k 0 false (λ i lo hi. same_data i (omega arith))

-- The tables: the parity bits follow the data bits, and at least one attempt is made.
pub table_shape : (c : Code) → ((table c).k ≤ (table c).n) × (0 < (table c).d) × ((table c).n ≤ 17)
unfolding table
table_shape hamming_7_4_3 = omega arith
table_shape _ = omega arith

-- Whatever follows the generator table in memory, the decoder returns true exactly for the words
-- whose parity bits are those of their data bits. It changes no bit of them.
pub hamming_decode_iff :
    (c : Code) (beyond : ℕ → ℕ) (p bits : List Bool)
    → (table c).n - (table c).k ≤ length p
    → (hamming_decode c beyond p bits ≡ true) ↔ IsParity (table c) bits
unfolding hamming_decode
hamming_decode_iff c beyond p bits room =
    hamming_parity_check_iff (table c) bits beyond p room (table_shape c).1

encode_places :
    (h : Hamming) (bits : List Bool)
    → h.k ≤ h.n
    → h.n ≤ length bits
    → (length (hamming_parity h bits bits h.k) ≡ length bits)
      × ((i : ℕ) → i < h.k → get_or (hamming_parity h bits bits h.k) i false ≡ get_or bits i false)
      × ((i : ℕ)
          → i < h.n - h.k
          → get_or (hamming_parity h bits bits h.k) (i + h.k) false ≡ parity h bits i)
unfolding hamming_parity
encode_places h bits le len = (
  length-fill (λ x. h.k + x) (λ x. parity h bits x) (h.n - h.k) 0 bits,
  λ i lt.
      get_or-fill_miss (λ x. h.k + x) (λ x. parity h bits x) (h.n - h.k) 0 i false bits
        (λ j lo hi q. omega arith),
  λ i lt.
      ap (λ t. get_or (hamming_parity h bits bits h.k) t false) {x = i + h.k} {y = h.k + i}
        (omega arith)
      ∙ get_or-fill_hit (λ x. h.k + x) (λ x. parity h bits x) (h.n - h.k) 0 i false bits
          (omega arith) (omega arith) (omega arith) (λ m l k q. omega arith),
)

pub encode_lem :
    (c : Code) (bits : List Bool)
    → (table c).n ≤ length bits
    → (length (hamming_encode c bits) ≡ length bits)
      × ((i : ℕ) → i < (table c).k → get_or (hamming_encode c bits) i false ≡ get_or bits i false)
      × ((i : ℕ)
          → i < (table c).n - (table c).k
          → get_or (hamming_encode c bits) (i + (table c).k) false ≡ parity (table c) bits i)
unfolding hamming_encode
encode_lem c bits len = encode_places (table c) bits (table_shape c).0 len

-- Encoding keeps the length and the data bits and stores their parity, so the decoder accepts.
pub hamming_decode-encode :
    (c : Code) (beyond : ℕ → ℕ) (p bits : List Bool)
    → (table c).n - (table c).k ≤ length p
    → length bits ≡ (table c).n
    → (hamming_decode c beyond p (hamming_encode c bits) ≡ true)
      × (length (hamming_encode c bits) ≡ (table c).n)
      × ((i : ℕ) → i < (table c).k → get_or (hamming_encode c bits) i false ≡ get_or bits i false)
hamming_decode-encode c beyond p bits room len =
    let places = encode_lem c bits (omega arith) in
    (
      (hamming_decode_iff c beyond p (hamming_encode c bits) room).1 (λ i lt.
          places.2 i lt
          ∙ parity_local (table c) bits (hamming_encode c bits) i (λ j l. sym (places.1 j l))),
      places.0 ∙ len,
      places.1,
    )
