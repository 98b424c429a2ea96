-- ===== src/Raw/Copy.antt =====
-- common/byte.h as src/dmr/raw.c uses it: what a copy of a whole array gives.
use dmrlib.Common.{
  ℕ, ◌+◌, ◌≡◌, sym, ap, ◌∙◌, arith, List, length, get_or, get_or_ext, fill, length-fill,
  get_or-fill_hit,
}
use dmrlib.Raw.{Memory}

-- A copy of a whole array over one of the same length.
pub byte_copy_same :
    (memory : Memory) (n : ℕ) (dst src : List ℕ)
    → length dst ≡ n
    → length src ≡ n
    → memory.byte_copy dst 0 src n ≡ src
byte_copy_same memory n dst src h k =
    memory.byte_copy_fill dst 0 src n
    ∙ get_or_ext 0 (fill n 0 (λ i. 0 + i) (λ i. get_or src i 0) dst) src
        (length-fill (λ i. 0 + i) (λ i. get_or src i 0) n 0 dst ∙ h ∙ sym k)
        (λ i below.
          ap (λ t. get_or (fill n 0 (λ i. 0 + i) (λ i. get_or src i 0) dst) t 0) {x = i} {y = 0 + i}
            (omega arith)
          ∙ get_or-fill_hit (λ i. 0 + i) (λ i. get_or src i 0) n 0 i 0 dst (omega arith)
              (omega (arith, length-fill (λ i. 0 + i) (λ i. get_or src i 0) n 0 dst))
              (omega (arith, length-fill (λ i. 0 + i) (λ i. get_or src i 0) n 0 dst))
              (λ m lo hi e. omega arith))
