-- ===== src/Bits/Convert.antt =====
-- What the conversions leave at each index, and that they undo each other.
use dmrlib.Common.{ℕ, zero, suc, ◌+◌, ◌*◌, ◌/◌, ◌≤◌, ◌<◌, min, ◌≡◌, refl, ap, ◌∙◌, subst}
use native.Mathlib.Decide.{ℕ_discrete}
use dmrlib.Common.{Bool, true, false, List, [], ◌∷◌, arith, ◌==◌, ==_iff, same, same_iff, ◌&&◌}
use dmrlib.Common.{length, get_or, drop, fill, length-fill}
use dmrlib.Common.{
  get_or-fill_miss, get_or-fill_hit, all_below, all_below-true, all_bits, all_bits-true,
}
use dmrlib.Bits.{
  byte_to_bits, bits_to_byte, put_byte, bytes_to_bits_from, bytes_to_bits_within,
  bits_to_bytes_within,
}

abbrev pub IsByte : ℕ → Type 0
IsByte b = b < 256

byte_table : all_below 256 (λ b. bits_to_byte (byte_to_bits b) == b) ≡ true
unfolding all_below bits_to_byte byte_to_bits
byte_table = refl

pub bits_to_byte-byte_to_bits : (b : ℕ) → b < 256 → bits_to_byte (byte_to_bits b) ≡ b
bits_to_byte-byte_to_bits b h =
    (==_iff _ b).0 (all_below-true 256 (λ b. bits_to_byte (byte_to_bits b) == b) b byte_table h)

abbrev eight_same : List Bool → List Bool → ℕ → Bool
eight_same xs ys zero = true
eight_same xs ys (suc n) = same (get_or xs n false) (get_or ys n false) && eight_same xs ys n

bits_table : all_bits 8 (λ v. eight_same (byte_to_bits (bits_to_byte v)) v 8) ≡ true
unfolding all_bits bits_to_byte byte_to_bits
bits_table = refl

eight_same-true :
    (n k : ℕ) (xs ys : List Bool)
    → eight_same xs ys n ≡ true
    → k < n
    → get_or xs k false ≡ get_or ys k false
eight_same-true zero k xs ys h lt = absurd (omega arith)
eight_same-true (suc n) k xs ys h lt =
    ground (arith, eight_same-true n k xs ys, same_iff (get_or xs n false) (get_or ys n false))

pub byte_to_bits-bits_to_byte :
    (v : List Bool) (k : ℕ)
    → length v ≡ 8
    → k < 8
    → get_or (byte_to_bits (bits_to_byte v)) k false ≡ get_or v k false
byte_to_bits-bits_to_byte v k e h =
    eight_same-true 8 k _ v
      (all_bits-true 8 (λ v. eight_same (byte_to_bits (bits_to_byte v)) v 8) v bits_table e) h

-- `dmr_bits_to_byte` reads eight elements and no more.
pub bits_to_byte_local :
    (v w : List Bool)
    → ((k : ℕ) → k < 8 → get_or v k false ≡ get_or w k false)
    → bits_to_byte v ≡ bits_to_byte w
unfolding bits_to_byte
bits_to_byte_local v w h = simp (
  h 0 (omega arith),
  h 1 (omega arith),
  h 2 (omega arith),
  h 3 (omega arith),
  h 4 (omega arith),
  h 5 (omega arith),
  h 6 (omega arith),
  h 7 (omega arith),
)

pub get_or-drop {ℓ} :
    {A : Type ℓ} (n k : ℕ) (xs : List A) (d : A) → get_or (drop n xs) k d ≡ get_or xs (n + k) d
get_or-drop zero k xs d = ap (λ t. get_or xs t d) {x = k} {y = 0 + k} (omega arith)
get_or-drop (suc n) k [] d = refl
get_or-drop (suc n) k (x ∷ xs) d =
    get_or-drop n k xs d
    ∙ ap (λ t. get_or (x ∷ xs) t d) {x = suc (n + k)} {y = suc n + k} (omega arith)

rounds : (n : ℕ) → min (n * 8 / 8) n ≡ n
rounds n = omega arith

length-bytes_to_bits_from :
    (bytes : List ℕ) (n i : ℕ) (bits : List Bool)
    → length (bytes_to_bits_from bytes n i bits) ≡ length bits
unfolding bytes_to_bits_from put_byte
length-bytes_to_bits_from bytes zero i bits = refl
length-bytes_to_bits_from bytes (suc n) i bits =
    length-bytes_to_bits_from bytes n (i + 1) _
    ∙ length-fill (λ k. i * 8 + k) (λ k. get_or (byte_to_bits (get_or bytes i 0)) k false) 8 0 bits

bytes_to_bits_from_miss :
    (bytes : List ℕ) (n i k : ℕ) (bits : List Bool)
    → k < i * 8
    → get_or (bytes_to_bits_from bytes n i bits) k false ≡ get_or bits k false
unfolding bytes_to_bits_from put_byte
bytes_to_bits_from_miss bytes zero i k bits h = refl
bytes_to_bits_from_miss bytes (suc n) i k bits h =
    bytes_to_bits_from_miss bytes n (i + 1) k _ (omega arith)
    ∙ get_or-fill_miss (λ j. i * 8 + j) (λ j. get_or (byte_to_bits (get_or bytes i 0)) j false) 8 0
        k false bits (λ j lo hi e. omega arith)

bytes_to_bits_from_hit :
    (bytes : List ℕ) (n i q r : ℕ) (bits : List Bool)
    → i ≤ q
    → q < i + n
    → r < 8
    → (i + n) * 8 ≤ length bits
    → get_or (bytes_to_bits_from bytes n i bits) (q * 8 + r) false
      ≡ get_or (byte_to_bits (get_or bytes q 0)) r false
unfolding bytes_to_bits_from put_byte
bytes_to_bits_from_hit bytes zero i q r bits lo hi small fits = absurd (omega arith)
bytes_to_bits_from_hit bytes (suc n) i q r bits lo hi small fits = elim (ℕ_discrete i q) [
  | yes e ↦
      bytes_to_bits_from_miss bytes n (i + 1) (q * 8 + r) (spread i) (omega arith)
      ∙ subst
          (λ t.
            get_or (spread i) (t * 8 + r) false ≡ get_or (byte_to_bits (get_or bytes t 0)) r false)
          e
          (get_or-fill_hit (λ k. i * 8 + k) (λ k. get_or (byte_to_bits (get_or bytes i 0)) k false)
            8 0 r false bits (omega arith) (omega arith) (omega arith) (λ m l h q. omega arith))
  | no ne ↦
      bytes_to_bits_from_hit bytes n (i + 1) q r (spread i) (omega arith) (omega arith) small
        (rw length-fill (omega arith))
]
  where
    spread : ℕ → List Bool
    spread i =
        fill 8 0 (λ k. i * 8 + k) (λ k. get_or (byte_to_bits (get_or bytes i 0)) k false) bits

-- Element `q * 8 + r` of the result is bit `r` of byte `q`, when both arrays hold `n` bytes.
pub get_or-bytes_to_bits_within :
    (bytes : List ℕ) (n : ℕ) (bits : List Bool) (q r : ℕ)
    → length bits ≡ n * 8
    → q < n
    → r < 8
    → get_or (bytes_to_bits_within bytes n bits (n * 8)) (q * 8 + r) false
      ≡ get_or (byte_to_bits (get_or bytes q 0)) r false
unfolding bytes_to_bits_within
get_or-bytes_to_bits_within bytes n bits q r e h k =
    rw (rounds n)
      (bytes_to_bits_from_hit bytes n 0 q r bits (omega arith) (omega arith) k (omega arith))

pub length-bytes_to_bits_within :
    (bytes : List ℕ) (n : ℕ) (bits : List Bool) (m : ℕ)
    → length (bytes_to_bits_within bytes n bits m) ≡ length bits
unfolding bytes_to_bits_within
length-bytes_to_bits_within bytes n bits m = length-bytes_to_bits_from bytes (min (m / 8) n) 0 bits

pub get_or-bits_to_bytes_within :
    (bits : List Bool) (n : ℕ) (bytes : List ℕ) (q : ℕ)
    → length bytes ≡ n
    → q < n
    → get_or (bits_to_bytes_within bits (n * 8) bytes n) q 0 ≡ bits_to_byte (drop (q * 8) bits)
unfolding bits_to_bytes_within
get_or-bits_to_bytes_within bits n bytes q e h = rw (rounds n) (
    get_or-fill_hit (λ i. i) (λ i. bits_to_byte (drop (i * 8) bits)) n 0 q 0 bytes (omega arith)
      (omega arith) (omega arith) (λ m l k p. omega arith))

pub length-bits_to_bytes_within :
    (bits : List Bool) (m : ℕ) (bytes : List ℕ) (n : ℕ)
    → length (bits_to_bytes_within bits m bytes n) ≡ length bytes
unfolding bits_to_bytes_within
length-bits_to_bytes_within bits m bytes n = length-fill _ _ (min (m / 8) n) 0 bytes
