-- ===== src/Raw/Sample.antt =====
-- Concrete functions for the memory that src/dmr/raw.c uses, for tests.
use dmrlib.Common.{
  ℕ, zero, suc, ◌+◌, ◌<◌, ◌≡◌, refl, ap, sym, ◌∙◌, arith, Option, none, some, List, [], ◌∷◌, length,
  get_or, fill, ltb, if◌then◌else◌,
}
use dmrlib.Raw.{Memory}

abbrev resize : ℕ → List ℕ → List ℕ
resize zero xs = []
resize (suc n) [] = 0 ∷ resize n []
resize (suc n) (x ∷ xs) = x ∷ resize n xs

abbrev length-resize : (n : ℕ) (xs : List ℕ) → length (resize n xs) ≡ n
length-resize zero xs = refl
length-resize (suc n) [] = ap suc (length-resize n [])
length-resize (suc n) (x ∷ xs) = ap suc (length-resize n xs)

abbrev get_or-resize :
    (n i : ℕ) (xs : List ℕ) → i < n → i < length xs → get_or (resize n xs) i 0 ≡ get_or xs i 0
get_or-resize zero i xs h k = absurd (omega arith)
get_or-resize (suc n) i [] h k = absurd (omega arith)
get_or-resize (suc n) zero (x ∷ xs) h k = refl
get_or-resize (suc n) (suc i) (x ∷ xs) h k = get_or-resize n i xs (omega arith) (omega arith)

abbrev unwrap : Option (List ℕ) → List ℕ
unwrap none = []
unwrap (some xs) = xs

-- The answer of `talloc_realloc` when there is memory.
abbrev given : (buf new : List ℕ) (n : ℕ) → some (resize n buf) ≡ some new → resize n buf ≡ new
given buf new n h = ap unwrap h

abbrev pub list_memory : Memory
list_memory = record {
  realloc = λ buf n. some (resize n buf);
  byte_copy = λ dst o src n. fill n 0 (λ i. o + i) (λ i. get_or src i 0) dst;
  byte_zero = λ dst o n. fill n 0 (λ i. o + i) (λ _. 0) dst;
  bhex = λ v. if ltb v 10 then v + 0x30 else v + 0x57;
  length-realloc = λ buf new n h. ap length (sym (given buf new n h)) ∙ length-resize n buf;
  get_or-realloc = λ buf new n i h below within.
      ap (λ t. get_or t i 0) (sym (given buf new n h)) ∙ get_or-resize n i buf below within;
  byte_copy_fill = λ dst o src n. refl;
  byte_zero_fill = λ dst o n. refl;
}
