-- ===== src/Common/Bytes.antt =====
-- Runs of an array: what one store and a loop of stores at its end do to its beginning.
use Prim.Native.Nat.{ℕ, zero, suc, ◌+◌, ◌-◌, ◌≤◌, ◌<◌}
use mathlib.Core.Path.{◌≡◌, refl, sym, ◌∙◌, ap}
use mathlib.Core.List.{List, [], ◌∷◌, ◌++◌}
use native.Mathlib.Omega.{arith}
use dmrlib.Common.Lists.{length, get_or, set, take, drop, length-set}
use dmrlib.Common.Loops.{fill}

pub append_assoc {ℓ} : {A : Type ℓ} (xs ys zs : List A) → (xs ++ ys) ++ zs ≡ xs ++ (ys ++ zs)
append_assoc [] ys zs = refl
append_assoc (x ∷ xs) ys zs = ap (λ t. x ∷ t) (append_assoc xs ys zs)

pub append-nil {ℓ} : {A : Type ℓ} (xs : List A) → xs ++ [] ≡ xs
append-nil [] = refl
append-nil (x ∷ xs) = ap (λ t. x ∷ t) (append-nil xs)

pub length-take {ℓ} : {A : Type ℓ} (n : ℕ) (xs : List A) → n ≤ length xs → length (take n xs) ≡ n
length-take zero xs h = refl
length-take (suc n) [] h = absurd (omega arith)
length-take (suc n) (x ∷ xs) h = ap suc (length-take n xs (omega arith))

pub take-set_next {ℓ} :
    {A : Type ℓ} (n : ℕ) (xs : List A) (v : A)
    → n < length xs
    → take (suc n) (set xs n v) ≡ take n xs ++ (v ∷ [])
take-set_next n [] v h = absurd (omega arith)
take-set_next zero (x ∷ xs) v h = refl
take-set_next (suc n) (x ∷ xs) v h = ap (λ t. x ∷ t) (take-set_next n xs v (omega arith))

-- Arrays that agree below `n` begin with the same `n` elements.
pub take_ext {ℓ} :
    {A : Type ℓ} (d : A) (n : ℕ) (xs ys : List A)
    → n ≤ length xs
    → n ≤ length ys
    → ((i : ℕ) → i < n → get_or xs i d ≡ get_or ys i d)
    → take n xs ≡ take n ys
take_ext d zero xs ys p q h = refl
take_ext d (suc n) [] ys p q h = absurd (omega arith)
take_ext d (suc n) (x ∷ xs) [] p q h = absurd (omega arith)
take_ext d (suc n) (x ∷ xs) (y ∷ ys) p q h =
    ap (λ t. t ∷ take n xs) (h 0 (omega arith))
    ∙ ap (λ t. y ∷ t)
        (take_ext d n xs ys (omega arith) (omega arith) (λ i b. h (suc i) (omega arith)))

-- `v(i), …, v(i + n - 1)`.
unfoldable pub values {ℓ} : {A : Type ℓ} → ℕ → ℕ → (ℕ → A) → List A
values zero i v = []
values (suc n) i v = v i ∷ values n (i + 1) v

-- A loop that stores at `o + i, o + i + 1, …`.
pub take-fill {ℓ} :
    {A : Type ℓ} (o n i : ℕ) (v : ℕ → A) (a : List A)
    → o + i + n ≤ length a
    → take (o + i + n) (fill n i (λ j. o + j) v a) ≡ take (o + i) a ++ values n i v
unfolding fill values
take-fill o zero i v a h =
    ap (λ t. take t a) {x = o + i + 0} {y = o + i} (omega arith) ∙ sym (append-nil _)
take-fill o (suc n) i v a h =
    ap (λ t. take t (fill n (i + 1) (λ j. o + j) v (set a (o + i) (v i)))) {x = o + i + suc n}
      {y = o + (i + 1) + n} (omega arith)
    ∙ take-fill o n (i + 1) v (set a (o + i) (v i)) (omega (arith, length-set a (o + i) (v i)))
    ∙ ap (λ t. take t (set a (o + i) (v i)) ++ values n (i + 1) v) {x = o + (i + 1)}
        {y = suc (o + i)} (omega arith)
    ∙ ap (λ t. t ++ values n (i + 1) v) (take-set_next (o + i) a (v i) (omega arith))
    ∙ append_assoc (take (o + i) a) (v i ∷ []) (values n (i + 1) v)

values-shift {ℓ} :
    {A : Type ℓ} (n i : ℕ) (x d : A) (xs : List A)
    → values n (suc i) (λ j. get_or (x ∷ xs) j d) ≡ values n i (λ j. get_or xs j d)
unfolding values
values-shift zero i x d xs = refl
values-shift (suc n) i x d xs =
    ap (λ t. get_or xs i d ∷ t)
      (ap (λ k. values n k (λ j. get_or (x ∷ xs) j d)) {x = suc i + 1} {y = suc (i + 1)}
          (omega arith)
        ∙ values-shift n (i + 1) x d xs)

pub values-get_or {ℓ} :
    {A : Type ℓ} (n : ℕ) (d : A) (xs : List A)
    → n ≤ length xs
    → values n 0 (λ j. get_or xs j d) ≡ take n xs
unfolding values
values-get_or zero d xs h = refl
values-get_or (suc n) d [] h = absurd (omega arith)
values-get_or (suc n) d (x ∷ xs) h =
    ap (λ t. x ∷ t) (values-shift n 0 x d xs ∙ values-get_or n d xs (omega arith))

pub take_all {ℓ} : {A : Type ℓ} (n : ℕ) (xs : List A) → length xs ≤ n → take n xs ≡ xs
take_all zero [] h = refl
take_all zero (x ∷ xs) h = absurd (omega arith)
take_all (suc n) [] h = refl
take_all (suc n) (x ∷ xs) h = ap (λ t. x ∷ t) (take_all n xs (omega arith))

pub take-take {ℓ} : {A : Type ℓ} (n m : ℕ) (xs : List A) → n ≤ m → take n (take m xs) ≡ take n xs
take-take zero m xs h = refl
take-take (suc n) zero xs h = absurd (omega arith)
take-take (suc n) (suc m) [] h = refl
take-take (suc n) (suc m) (x ∷ xs) h = ap (λ t. x ∷ t) (take-take n m xs (omega arith))

pub length-drop {ℓ} : {A : Type ℓ} (n : ℕ) (xs : List A) → length (drop n xs) ≡ length xs - n
length-drop zero xs = omega arith
length-drop (suc n) [] = omega arith
length-drop (suc n) (x ∷ xs) = length-drop n xs ∙ omega arith
