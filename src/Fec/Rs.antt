-- ===== src/Fec/Rs.antt =====
-- src/dmr/fec/rs_12_9.c: the Reed-Solomon (12, 9) parity of a full link control message.
mod Tables
pub mod Register
mod Burst
pub mod Field
pub mod Detect
use dmrlib.Common.{ℕ, zero, suc, ◌+◌, Bool, ◌||◌, not, List, [], ◌∷◌, bit_xor}
use dmrlib.Common.{◌==◌, if◌then◌else◌, get_or, set, fill, ◌-◌}
unfoldable pub use Tables.{exp_table, log_table, poly}

-- `gmult`. The tables are read inside their bounds by every pair of bytes.
unfoldable pub gmult : ℕ → ℕ → ℕ
unfolding exp_table log_table
gmult a b =
    if a == 0 || b == 0 then 0 else get_or exp_table (get_or log_table a 0 + get_or log_table b 0) 0

-- The loop over `j` of `encode`, from `j` down to 1, then the assignment to `parity[0]`.
shift_parity : ℕ → ℕ → List ℕ → List ℕ
shift_parity dbyte zero parity = set parity 0 (gmult (get_or poly 0 0) dbyte)
shift_parity dbyte (suc j) parity =
    shift_parity dbyte j
      (set parity (suc j) (bit_xor (get_or parity j 0) (gmult (get_or poly (suc j) 0) dbyte)))

-- `n` rounds of the loop over `i`.
encode_from : List ℕ → ℕ → ℕ → List ℕ → List ℕ
encode_from bytes zero i parity = parity
encode_from bytes (suc n) i parity =
    encode_from bytes n (i + 1)
      (shift_parity (bit_xor (get_or bytes i 0) (get_or parity 2 0)) 2 parity)

unfoldable pub encode : List ℕ → List ℕ
unfolding encode_from shift_parity poly
encode bytes = encode_from bytes 9 0 (0 ∷ 0 ∷ 0 ∷ [])

-- `true` is the return value 0, `false` is -1.
unfoldable pub rs_12_9_4_decode : List ℕ → Bool
rs_12_9_4_decode bytes =
    let parity = encode bytes in
    not (
      not (bit_xor (get_or bytes 9 0) (get_or parity 2 0) == 0)
      || not (bit_xor (get_or bytes 10 0) (get_or parity 1 0) == 0)
      || not (bit_xor (get_or bytes 11 0) (get_or parity 0 0) == 0))

unfoldable pub rs_12_9_4_encode : List ℕ → List ℕ
unfolding fill
rs_12_9_4_encode bytes =
    let parity = encode bytes in fill 3 0 (λ i. 11 - i) (λ i. get_or parity i 0) bytes
