-- ===== src/Bits/Ends.antt =====
-- src/dmr/bits.c: for which arrays the loops over bytes end, and what they leave.
use dmrlib.Common.{
  ℕ, zero, suc, ◌+◌, ◌*◌, ◌/◌, ◌≤◌, ◌<◌, min, ◌≡◌, refl, ap, ◌∙◌, arith, Bool, none, some, List,
  ltb, if-then, if-else, u16, set, drop, fill,
}
use dmrlib.Bits.{
  bits_to_byte, put_byte, bytes_to_bits_loop, bytes_to_bits, bits_to_bytes_loop, bits_to_bytes,
  bytes_to_bits_from, bytes_to_bits_within, bits_to_bytes_within,
}

bytes_to_bits_loop-from :
    (fuel left i : ℕ) (bytes : List ℕ) (bits : List Bool)
    → left < fuel
    → i + left < 65_536
    → bytes_to_bits_loop fuel bytes (i + left) i bits ≡ some (bytes_to_bits_from bytes left i bits)
unfolding bytes_to_bits_loop bytes_to_bits_from
bytes_to_bits_loop-from zero left i bytes bits enough small = absurd (omega arith)
bytes_to_bits_loop-from (suc fuel) zero i bytes bits enough small =
    if-else (ltb i (i + 0)) _ _ (ground arith)
bytes_to_bits_loop-from (suc fuel) (suc left) i bytes bits enough small =
    if-then (ltb i (i + suc left)) _ _ (ground arith)
    ∙ ap (λ k. bytes_to_bits_loop fuel bytes (i + suc left) k (put_byte bytes i bits))
        {x = u16 (i + 1)} {y = i + 1} (omega arith)
    ∙ ap (λ n. bytes_to_bits_loop fuel bytes n (i + 1) (put_byte bytes i bits)) {x = i + suc left}
        {y = i + 1 + left} (omega arith)
    ∙ bytes_to_bits_loop-from fuel left (i + 1) bytes (put_byte bytes i bits) (omega arith)
        (omega arith)

-- With fewer than 65536 bytes the loop ends.
pub bytes_to_bits_within_lem :
    (bytes : List ℕ) (n : ℕ) (bits : List Bool) (m : ℕ)
    → min (m / 8) n < 65_536
    → bytes_to_bits bytes n bits m ≡ some (bytes_to_bits_within bytes n bits m)
unfolding bytes_to_bits bytes_to_bits_within
bytes_to_bits_within_lem bytes n bits m small =
    ap (λ k. bytes_to_bits_loop 65_537 bytes k 0 bits) {x = min (m / 8) n} {y = 0 + min (m / 8) n}
      (omega arith)
    ∙ bytes_to_bits_loop-from 65_537 (min (m / 8) n) 0 bytes bits (omega arith) (omega arith)

bits_to_bytes_loop-fill :
    (fuel left i : ℕ) (bits : List Bool) (bytes : List ℕ)
    → left < fuel
    → i + left < 65_536
    → bits_to_bytes_loop fuel bits (i + left) i bytes
      ≡ some (fill left i (λ k. k) (λ k. bits_to_byte (drop (k * 8) bits)) bytes)
unfolding bits_to_bytes_loop fill
bits_to_bytes_loop-fill zero left i bits bytes enough small = absurd (omega arith)
bits_to_bytes_loop-fill (suc fuel) zero i bits bytes enough small =
    if-else (ltb i (i + 0)) _ _ (ground arith)
bits_to_bytes_loop-fill (suc fuel) (suc left) i bits bytes enough small =
    let next = set bytes i (bits_to_byte (drop (i * 8) bits)) in
    if-then (ltb i (i + suc left)) _ _ (ground arith)
    ∙ ap (λ k. bits_to_bytes_loop fuel bits (i + suc left) k next) {x = u16 (i + 1)} {y = i + 1}
        (omega arith)
    ∙ ap (λ n. bits_to_bytes_loop fuel bits n (i + 1) next) {x = i + suc left} {y = i + 1 + left}
        (omega arith)
    ∙ bits_to_bytes_loop-fill fuel left (i + 1) bits next (omega arith) (omega arith)

pub bits_to_bytes_within_lem :
    (bits : List Bool) (m : ℕ) (bytes : List ℕ) (n : ℕ)
    → min (m / 8) n < 65_536
    → bits_to_bytes bits m bytes n ≡ some (bits_to_bytes_within bits m bytes n)
unfolding bits_to_bytes bits_to_bytes_within
bits_to_bytes_within_lem bits m bytes n small =
    ap (λ k. bits_to_bytes_loop 65_537 bits k 0 bytes) {x = min (m / 8) n} {y = 0 + min (m / 8) n}
      (omega arith)
    ∙ bits_to_bytes_loop-fill 65_537 (min (m / 8) n) 0 bits bytes (omega arith) (omega arith)

-- With 65536 bytes or more no number of rounds is enough, since the counter stays below the bound.
pub bytes_to_bits_loop-none :
    (fuel bound i : ℕ) (bytes : List ℕ) (bits : List Bool)
    → 65_536 ≤ bound
    → i < 65_536
    → bytes_to_bits_loop fuel bytes bound i bits ≡ none
unfolding bytes_to_bits_loop
bytes_to_bits_loop-none zero bound i bytes bits large small = refl
bytes_to_bits_loop-none (suc fuel) bound i bytes bits large small =
    if-then (ltb i bound) _ _ (ground arith)
    ∙ bytes_to_bits_loop-none fuel bound (u16 (i + 1)) bytes (put_byte bytes i bits) large
        (omega arith)

pub bits_to_bytes_loop-none :
    (fuel bound i : ℕ) (bits : List Bool) (bytes : List ℕ)
    → 65_536 ≤ bound
    → i < 65_536
    → bits_to_bytes_loop fuel bits bound i bytes ≡ none
unfolding bits_to_bytes_loop
bits_to_bytes_loop-none zero bound i bits bytes large small = refl
bits_to_bytes_loop-none (suc fuel) bound i bits bytes large small =
    if-then (ltb i bound) _ _ (ground arith)
    ∙ bits_to_bytes_loop-none fuel bound (u16 (i + 1)) bits _ large (omega arith)
