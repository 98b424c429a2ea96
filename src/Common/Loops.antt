-- ===== src/Common/Loops.antt =====
-- `for (k = i; k < i + n; k++) a[p(k)] = v(k);`, where `v` does not read what the loop writes.
-- A `memcpy` into `a + o` is such a loop with `p(k) = o + k`.
use Prim.Native.Nat.{ℕ, zero, suc, ◌+◌, ◌≤◌, ◌<◌}
use mathlib.Core.Path.{◌≡◌, refl, ◌∙◌, ap, subst}
use mathlib.Core.Logic.{◌≢◌}
use mathlib.Core.List.{List, [], ◌∷◌}
use native.Mathlib.Omega.{arith}
use native.Mathlib.Decide.{ℕ_discrete}
use dmrlib.Common.Lists.{
  length, get_or, set, All, All-set, length-set, get_or-set_self, get_or-set_ne,
}

module _ {ℓ} {A : Type ℓ} where
  unfoldable pub fill : ℕ → ℕ → (ℕ → ℕ) → (ℕ → A) → List A → List A
  fill zero i p v a = a
  fill (suc n) i p v a = fill n (i + 1) p v (set a (p i) (v i))

  module _ (p : ℕ → ℕ) (v : ℕ → A) where
    pub length-fill : (n i : ℕ) (a : List A) → length (fill n i p v a) ≡ length a
    unfolding fill
    length-fill zero i a = refl
    length-fill (suc n) i a = length-fill n (i + 1) (set a (p i) (v i)) ∙ length-set a (p i) (v i)

    -- A place that no round writes keeps its value.
    pub get_or-fill_miss :
        (n i k : ℕ) (d : A) (a : List A)
        → ((j : ℕ) → i ≤ j → j < i + n → p j ≢ k)
        → get_or (fill n i p v a) k d ≡ get_or a k d
    unfolding fill
    get_or-fill_miss zero i k d a h = refl
    get_or-fill_miss (suc n) i k d a h =
        get_or-fill_miss n (i + 1) k d (set a (p i) (v i))
          (λ j lo hi. h j (omega arith) (omega arith))
        ∙ get_or-set_ne a (p i) k (v i) d (h i (omega arith) (omega arith))

    -- A place that round `j` writes, and no later one, holds what that round wrote.
    pub get_or-fill_hit :
        (n i j : ℕ) (d : A) (a : List A)
        → i ≤ j
        → j < i + n
        → p j < length a
        → ((m : ℕ) → j < m → m < i + n → p m ≢ p j)
        → get_or (fill n i p v a) (p j) d ≡ v j
    unfolding fill
    get_or-fill_hit zero i j d a lo hi inside once = absurd (omega arith)
    get_or-fill_hit (suc n) i j d a lo hi inside once = elim (ℕ_discrete i j) [
      | yes e ↦
          subst (λ t. get_or (fill (suc n) i p v a) (p t) d ≡ v t) e
            (get_or-fill_miss n (i + 1) (p i) d (set a (p i) (v i))
                (λ m l h q. once m (omega arith) (omega arith) (q ∙ ap p e))
              ∙ get_or-set_self a (p i) (v i) d (rw e inside))
      | no e ↦
          get_or-fill_hit n (i + 1) j d (set a (p i) (v i)) (omega arith) (omega arith)
            (rw length-set inside) (λ m l h. once m l (omega arith))
    ]

-- What holds of an array and of everything stored in it holds of the result.
pub All-fill {ℓ κ} :
    {A : Type ℓ} (P : A → Type κ) (p : ℕ → ℕ) (v : ℕ → A) (n i : ℕ) (a : List A)
    → All P a
    → ((j : ℕ) → i ≤ j → j < i + n → P (v j))
    → All P (fill n i p v a)
unfolding fill
All-fill P p v zero i a good new = good
All-fill P p v (suc n) i a good new =
    All-fill P p v n (i + 1) (set a (p i) (v i))
      (All-set P a (p i) (v i) good (new i (omega arith) (omega arith)))
      (λ j lo hi. new j (omega arith) (omega arith))

set_same {ℓ} : {A : Type ℓ} (a : List A) (k : ℕ) (d v : A) → v ≡ get_or a k d → set a k v ≡ a
set_same [] k d v h = refl
set_same (x ∷ a) zero d v h = ap (λ t. t ∷ a) h
set_same (x ∷ a) (suc k) d v h = ap (λ t. x ∷ t) (set_same a k d v h)

-- Storing what is there already changes nothing.
pub fill_same {ℓ} :
    {A : Type ℓ} (p : ℕ → ℕ) (v : ℕ → A) (n i : ℕ) (d : A) (a : List A)
    → ((j : ℕ) → i ≤ j → j < i + n → v j ≡ get_or a (p j) d)
    → fill n i p v a ≡ a
unfolding fill
fill_same p v zero i d a h = refl
fill_same p v (suc n) i d a h =
    ap (fill n (i + 1) p v) (set_same a (p i) d (v i) (h i (omega arith) (omega arith)))
    ∙ fill_same p v n (i + 1) d a (λ j lo hi. h j (omega arith) (omega arith))
