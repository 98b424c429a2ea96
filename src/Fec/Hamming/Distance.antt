-- ===== src/Fec/Hamming/Distance.antt =====
-- How many wrong bits each code notices.
use dmrlib.Common.{ℕ, zero, suc, ◌+◌, ◌-◌, ◌≤◌, ◌<◌, ◌≡◌, refl, sym, ap, ap₂, ◌∙◌, ◌^◌, arith}
use dmrlib.Common.{
  Bool, true, false, not, ◌||◌, ◌&&◌, List, [], ◌∷◌, ◌⊕◌, ◌==◌, if◌then◌else◌, bit_and,
}
use dmrlib.Common.{get_or, length, replicate, count_true, few_bits, few_bits-true}
use dmrlib.Fec.Hamming.{Hamming, Code, table, hamming_7_4_3, hamming_13_9_3, hamming_15_11_3}
use dmrlib.Fec.Hamming.{hamming_16_11_4, hamming_17_12_3, parity_from, parity, hamming_decode}
use dmrlib.Fec.Hamming.{hamming_parity_check}
use dmrlib.Fec.Hamming.Accept.{IsParity, hamming_decode_iff, table_shape}

-- Where two words differ.
unfoldable pub xor_list : List Bool → List Bool → List Bool
xor_list (x ∷ xs) (y ∷ ys) = (x ⊕ y) ∷ xor_list xs ys
xor_list _ _ = []

-- The number of places at which two words of one length differ.
unfoldable pub distance : List Bool → List Bool → ℕ
unfolding xor_list count_true
distance v w = count_true (xor_list v w)

length-xor_list : (v w : List Bool) → length v ≡ length w → length (xor_list v w) ≡ length v
unfolding xor_list
length-xor_list [] w e = refl
length-xor_list (x ∷ v) [] e = absurd (omega arith)
length-xor_list (x ∷ v) (y ∷ w) e = ap suc (length-xor_list v w (omega arith))

get_or-xor_list :
    (v w : List Bool) (i : ℕ)
    → length v ≡ length w
    → get_or (xor_list v w) i false ≡ get_or v i false ⊕ get_or w i false
unfolding xor_list
get_or-xor_list [] [] i e = refl
get_or-xor_list [] (y ∷ w) i e = absurd (omega arith)
get_or-xor_list (x ∷ v) [] i e = absurd (omega arith)
get_or-xor_list (x ∷ v) (y ∷ w) zero e = refl
get_or-xor_list (x ∷ v) (y ∷ w) (suc i) e = get_or-xor_list v w i (omega arith)

abbrev all_false : List Bool → Bool
all_false [] = true
all_false (x ∷ v) = not x && all_false v

all_false_eq : (v w : List Bool) → length v ≡ length w → all_false (xor_list v w) ≡ true → v ≡ w
unfolding xor_list
all_false_eq [] [] e h = refl
all_false_eq [] (y ∷ w) e h = absurd (omega arith)
all_false_eq (x ∷ v) [] e h = absurd (omega arith)
all_false_eq (true ∷ v) (true ∷ w) e h = ap (λ t. true ∷ t) (all_false_eq v w (omega arith) h)
all_false_eq (false ∷ v) (false ∷ w) e h = ap (λ t. false ∷ t) (all_false_eq v w (omega arith) h)
all_false_eq (true ∷ v) (false ∷ w) e h = cc
all_false_eq (false ∷ v) (true ∷ w) e h = cc

regroup :
    (t : Bool) (a b x y : Bool)
    → (if t then a ⊕ b else (a ⊕ b) ⊕ (x ⊕ y)) ≡ (if t then a else a ⊕ x) ⊕ (if t then b else b ⊕ y)
regroup t a b x y = ground arith

-- Parity is linear.
parity_from-xor_list :
    (h : Hamming) (v w : List Bool) (x left y : ℕ) (p q : Bool)
    → length v ≡ length w
    → parity_from h (xor_list v w) x left y (p ⊕ q)
      ≡ parity_from h v x left y p ⊕ parity_from h w x left y q
unfolding parity_from
parity_from-xor_list h v w x zero y p q e = refl
parity_from-xor_list h v w x (suc left) y p q e =
    ap (parity_from h (xor_list v w) x left (y + 1)) (
      ap
        (λ t.
          if bit_and (get_or h.g y 0) (2 ^ (h.n - h.k - x - 1)) == 0 then p ⊕ q else (p ⊕ q) ⊕ t)
        (get_or-xor_list v w y e)
      ∙ regroup (bit_and (get_or h.g y 0) (2 ^ (h.n - h.k - x - 1)) == 0) p q (get_or v y false)
          (get_or w y false))
    ∙ parity_from-xor_list h v w x left (y + 1) _ _ e

IsParity-xor_list :
    (h : Hamming) (v w : List Bool)
    → length v ≡ length w
    → IsParity h v
    → IsParity h w
    → IsParity h (xor_list v w)
unfolding parity
IsParity-xor_list h v w e p q i lt =
    get_or-xor_list v w (i + h.k) e
    ∙ ap₂ ◌⊕◌ (p i lt) (q i lt)
    ∙ sym (parity_from-xor_list h v w i h.k 0 false false e)

abbrev scratch : List Bool
scratch = replicate 17 false

abbrev notices : Code → List Bool → Bool
notices c e = not (hamming_decode c (λ i. 0) scratch e) || all_false e

-- No word of fewer ones than the distance is accepted, but the one of none.
distance_table : (c : Code) → few_bits (table c).n ((table c).d - 1) (notices c) ≡ true
unfolding few_bits table hamming_decode hamming_parity_check
distance_table hamming_7_4_3 = refl
distance_table hamming_13_9_3 = refl
distance_table hamming_15_11_3 = refl
distance_table hamming_16_11_4 = refl
distance_table hamming_17_12_3 = refl

or_true : (a b : Bool) → (not a || b) ≡ true → a ≡ true → b ≡ true
or_true a b h k = ground arith

-- Two words that the decoder accepts and that differ in fewer places than the code's distance
-- `d` are the same word: `d - 1` wrong bits in a sent word are always noticed.
pub hamming_decode-distance :
    (c : Code) (beyond : ℕ → ℕ) (p v w : List Bool)
    → (table c).n - (table c).k ≤ length p
    → length v ≡ (table c).n
    → length w ≡ (table c).n
    → distance v w < (table c).d
    → hamming_decode c beyond p v ≡ true
    → hamming_decode c beyond p w ≡ true
    → v ≡ w
unfolding distance
hamming_decode-distance c beyond p v w room lv lw near ok ok' = all_false_eq v w same_length (
    or_true (hamming_decode c (λ i. 0) scratch (xor_list v w)) (all_false (xor_list v w))
      (few_bits-true (table c).n ((table c).d - 1) (notices c) (xor_list v w) (distance_table c)
        (length-xor_list v w same_length ∙ lv) (omega arith))
      ((hamming_decode_iff c (λ i. 0) scratch (xor_list v w) (omega (arith, table_shape c))).1 (
        IsParity-xor_list (table c) v w same_length ((hamming_decode_iff c beyond p v room).0 ok)
          ((hamming_decode_iff c beyond p w room).0 ok'))))
  where
    same_length : length v ≡ length w
    same_length = lv ∙ sym lw
