-- ===== src/Payload/Sync/Distance.antt =====
-- The number of places at which two patterns differ, and its triangle inequality.
use dmrlib.Common.{ℕ, zero, suc, ◌+◌, ◌/◌, ◌≤◌, ◌<◌, ◌≡◌, refl, sym, ap, ◌∙◌, arith}
use dmrlib.Common.{true, List, get_or, ◌==◌, ==_iff, bit_and, bit_xor, all_below, all_below-true}
use dmrlib.Common.Xor.{xor_comm, xor_assoc, xor_cancel}
use dmrlib.Common.Fields.{and_xor, and-le}
use dmrlib.Common.Weight.{weight, weight-xor-le}
use dmrlib.Payload.Sync.{sync_bits, bit_diff}

weight_table : all_below 256 (λ j. get_or sync_bits j 0 == weight 8 j) ≡ true
unfolding all_below sync_bits weight
weight_table = refl

sync_bits-weight : (j : ℕ) → j < 256 → get_or sync_bits j 0 ≡ weight 8 j
sync_bits-weight j h =
    (==_iff _ _).0 (all_below-true 256 (λ j. get_or sync_bits j 0 == weight 8 j) j weight_table h)

weight-le : (k x : ℕ) → weight k x ≤ k
unfolding weight
weight-le zero x = omega arith
weight-le (suc k) x = omega (arith, weight-le k (x / 2))

-- The ones of `a ^ b` under the mask `m`.
unfoldable pub differing : ℕ → ℕ → ℕ → ℕ
differing m a b = weight 8 (bit_and m (bit_xor a b))

differing-triangle : (m x p q : ℕ) → differing m p q ≤ differing m x p + differing m x q
unfolding differing
differing-triangle m x p q = omega (
  arith,
  ap (weight 8) (ap (bit_and m) (through x p q) ∙ and_xor m (bit_xor x p) (bit_xor x q)),
  weight-xor-le 8 (bit_and m (bit_xor x p)) (bit_and m (bit_xor x q)),
)
  where
    through : (x p q : ℕ) → bit_xor p q ≡ bit_xor (bit_xor x p) (bit_xor x q)
    through x p q =
        ap (λ t. bit_xor t q) (sym (xor_cancel p x) ∙ ap (λ t. bit_xor t x) (xor_comm p x))
        ∙ xor_assoc (bit_xor x p) x q

-- One round adds the number of ones.
round_lem :
    (m a b : ℕ)
    → m < 256
    → (get_or sync_bits (bit_and m (bit_xor a b)) 0 ≡ differing m a b) × (differing m a b ≤ 8)
unfolding differing
round_lem m a b h = (
  sync_bits-weight (bit_and m (bit_xor a b)) (omega (arith, and-le m (bit_xor a b))),
  weight-le 8 (bit_and m (bit_xor a b)),
)

-- The places of the 48 bits in the middle of seven bytes at which two words differ.
unfoldable pub hamming_distance : List ℕ → List ℕ → ℕ
hamming_distance a b =
    differing 0x0f (get_or a 0 0) (get_or b 0 0)
    + differing 0xff (get_or a 1 0) (get_or b 1 0)
    + differing 0xff (get_or a 2 0) (get_or b 2 0)
    + differing 0xff (get_or a 3 0) (get_or b 3 0)
    + differing 0xff (get_or a 4 0) (get_or b 4 0)
    + differing 0xff (get_or a 5 0) (get_or b 5 0)
    + differing 0xf0 (get_or a 6 0) (get_or b 6 0)

pub hamming_distance-triangle :
    (x p q : List ℕ) → hamming_distance p q ≤ hamming_distance x p + hamming_distance x q
unfolding hamming_distance
hamming_distance-triangle x p q = omega (
  arith,
  differing-triangle 0x0f (get_or x 0 0) (get_or p 0 0) (get_or q 0 0),
  differing-triangle 0xff (get_or x 1 0) (get_or p 1 0) (get_or q 1 0),
  differing-triangle 0xff (get_or x 2 0) (get_or p 2 0) (get_or q 2 0),
  differing-triangle 0xff (get_or x 3 0) (get_or p 3 0) (get_or q 3 0),
  differing-triangle 0xff (get_or x 4 0) (get_or p 4 0) (get_or q 4 0),
  differing-triangle 0xff (get_or x 5 0) (get_or p 5 0) (get_or q 5 0),
  differing-triangle 0xf0 (get_or x 6 0) (get_or p 6 0) (get_or q 6 0),
)

-- The sum of `dmr_bit_diff` in a byte never wraps: it is the number of places at which the 48
-- bits differ.
pub bit_diff-hamming_distance : (a b : List ℕ) → bit_diff a b ≡ hamming_distance a b
unfolding bit_diff hamming_distance
bit_diff-hamming_distance a b = omega (
  arith,
  round_lem 0x0f (get_or a 0 0) (get_or b 0 0) (omega arith),
  round_lem 0xff (get_or a 1 0) (get_or b 1 0) (omega arith),
  round_lem 0xff (get_or a 2 0) (get_or b 2 0) (omega arith),
  round_lem 0xff (get_or a 3 0) (get_or b 3 0) (omega arith),
  round_lem 0xff (get_or a 4 0) (get_or b 4 0) (omega arith),
  round_lem 0xff (get_or a 5 0) (get_or b 5 0) (omega arith),
  round_lem 0xf0 (get_or a 6 0) (get_or b 6 0) (omega arith),
)
