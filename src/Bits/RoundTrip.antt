-- ===== src/Bits/RoundTrip.antt =====
-- src/dmr/bits.c: the two array conversions are inverse to each other where their loops end.
use dmrlib.Common.{ℕ, zero, suc, ◌+◌, ◌*◌, ◌/◌, ◌%◌, ◌<◌, ◌≡◌, refl, sym, ap, ◌∙◌, subst}
use dmrlib.Common.{
  ◌≤◌, ltb, ltb_iff, Bool-cases, ◌⊎◌, inl, inr, none, some, Bool, false, List, [], ◌∷◌, arith,
}
use dmrlib.Common.{length, get_or, drop, All, All-get_or, get_or_ext}
use dmrlib.Bits.{byte_to_bits, bits_to_byte, bytes_to_bits_within, bits_to_bytes_within}
use dmrlib.Bits.{bytes_to_bits_loop, bytes_to_bits, bits_to_bytes_loop, bits_to_bytes}
use dmrlib.Bits.Ends.{
  bytes_to_bits_within_lem, bits_to_bytes_within_lem, bytes_to_bits_loop-none,
  bits_to_bytes_loop-none,
}
use dmrlib.Bits.Convert.{IsByte, bits_to_byte-byte_to_bits, byte_to_bits-bits_to_byte}
use dmrlib.Bits.Convert.{
  bits_to_byte_local, get_or-drop, get_or-bytes_to_bits_within, get_or-bits_to_bytes_within,
}
use dmrlib.Bits.Convert.{length-bytes_to_bits_within, length-bits_to_bytes_within}

length-byte_to_bits : (b : ℕ) → length (byte_to_bits b) ≡ 8
unfolding byte_to_bits
length-byte_to_bits b = refl

-- What the loops leave, for bytes that are laid out and packed again.
pub bits_to_bytes_within-bytes_to_bits_within :
    (bytes : List ℕ) (n : ℕ) (bits : List Bool) (out : List ℕ)
    → length bytes ≡ n
    → length bits ≡ n * 8
    → length out ≡ n
    → All IsByte bytes
    → bits_to_bytes_within (bytes_to_bits_within bytes n bits (n * 8)) (n * 8) out n ≡ bytes
bits_to_bytes_within-bytes_to_bits_within bytes n bits out e f g small =
    get_or_ext 0 _ bytes (length-bits_to_bytes_within _ (n * 8) out n ∙ omega arith) λ i h.
      let within : i < n = omega (
        arith,
        length-bits_to_bytes_within (bytes_to_bits_within bytes n bits (n * 8)) (n * 8) out n,
      ) in
      get_or-bits_to_bytes_within _ n out i g within
      ∙ bits_to_byte_local _ (byte_to_bits (get_or bytes i 0)) (λ k l.
        get_or-drop (i * 8) k _ false ∙ get_or-bytes_to_bits_within bytes n bits i k f within l)
      ∙ bits_to_byte-byte_to_bits (get_or bytes i 0)
          (All-get_or IsByte bytes i 0 small (omega arith))

-- The first `n` elements of an array, read one by one.
first : List Bool → ℕ → List Bool
first bits zero = []
first bits (suc n) = get_or bits 0 false ∷ first (drop 1 bits) n

length-first : (bits : List Bool) (n : ℕ) → length (first bits n) ≡ n
unfolding first
length-first bits zero = refl
length-first bits (suc n) = ap suc (length-first (drop 1 bits) n)

get_or-first :
    (bits : List Bool) (n k : ℕ) → k < n → get_or (first bits n) k false ≡ get_or bits k false
unfolding first
get_or-first bits zero k h = absurd (omega arith)
get_or-first bits (suc n) zero h = refl
get_or-first bits (suc n) (suc k) h =
    get_or-first (drop 1 bits) n k (omega arith)
    ∙ get_or-drop 1 k bits false
    ∙ ap (λ t. get_or bits t false) {x = 1 + k} {y = suc k} (omega arith)

-- The same for an array that goes on after its eighth element.
byte_to_bits-bits_to_byte_long :
    (v : List Bool) (k : ℕ)
    → k < 8
    → get_or (byte_to_bits (bits_to_byte v)) k false ≡ get_or v k false
byte_to_bits-bits_to_byte_long v k h =
    ap (λ t. get_or (byte_to_bits t) k false)
      (bits_to_byte_local v (first v 8) (λ j l. sym (get_or-first v 8 j l)))
    ∙ byte_to_bits-bits_to_byte (first v 8) k (length-first v 8) h
    ∙ get_or-first v 8 k h

-- What the loops leave, for bits that are packed and laid out again.
pub bytes_to_bits_within-bits_to_bytes_within :
    (bits : List Bool) (n : ℕ) (bytes : List ℕ) (out : List Bool)
    → length bits ≡ n * 8
    → length bytes ≡ n
    → length out ≡ n * 8
    → bytes_to_bits_within (bits_to_bytes_within bits (n * 8) bytes n) n out (n * 8) ≡ bits
bytes_to_bits_within-bits_to_bytes_within bits n bytes out e f g =
    get_or_ext false _ bits (length-bytes_to_bits_within _ n out (n * 8) ∙ omega arith) λ i h.
      let within : i < n * 8 = omega (
        arith,
        length-bytes_to_bits_within (bits_to_bytes_within bits (n * 8) bytes n) n out (n * 8),
      ) in
      at_index i within
  where
    packed : List ℕ
    packed = bits_to_bytes_within bits (n * 8) bytes n

    at_place :
        (q r : ℕ)
        → q < n
        → r < 8
        → get_or (bytes_to_bits_within packed n out (n * 8)) (q * 8 + r) false
          ≡ get_or bits (q * 8 + r) false
    at_place q r h k =
        get_or-bytes_to_bits_within packed n out q r g h k
        ∙ ap (λ t. get_or (byte_to_bits t) r false) (get_or-bits_to_bytes_within bits n bytes q f h)
        ∙ byte_to_bits-bits_to_byte_long (drop (q * 8) bits) r k
        ∙ get_or-drop (q * 8) r bits false

    at_index :
        (i : ℕ)
        → i < n * 8
        → get_or (bytes_to_bits_within packed n out (n * 8)) i false ≡ get_or bits i false
    at_index i h =
        subst
          (λ t. get_or (bytes_to_bits_within packed n out (n * 8)) t false ≡ get_or bits t false)
          {x = i / 8 * 8 + i % 8} (omega arith)
          (at_place (i / 8) (i % 8) (omega arith) (omega arith))

-- Bytes laid out as bits and packed again are the same bytes, whatever the two arrays held before,
-- if there are fewer than 65536; with 65536 or more the first conversion does not end, whatever
-- number of rounds is allowed.
pub bits_to_bytes-bytes_to_bits :
    (bytes : List ℕ) (n : ℕ) (bits : List Bool) (out : List ℕ)
    → length bytes ≡ n
    → length bits ≡ n * 8
    → length out ≡ n
    → All IsByte bytes
    → ((n < 65_536)
        × (laid : List Bool) × (bytes_to_bits bytes n bits (n * 8) ≡ some laid)
        × (bits_to_bytes laid (n * 8) out n ≡ some bytes))
      ⊎ ((65_536 ≤ n) × ((fuel : ℕ) → bytes_to_bits_loop fuel bytes n 0 bits ≡ none))
bits_to_bytes-bytes_to_bits bytes n bits out e f g small = elim (Bool-cases (ltb n 65_536)) [
  | inl few ↦
      let small_enough : n < 65_536 = (ltb_iff n 65_536).0 few in
      inl (
        small_enough,
        bytes_to_bits_within bytes n bits (n * 8),
        bytes_to_bits_within_lem bytes n bits (n * 8) (omega arith),
        bits_to_bytes_within_lem (bytes_to_bits_within bytes n bits (n * 8)) (n * 8) out n
              (omega arith)
            ∙ ap some (bits_to_bytes_within-bytes_to_bits_within bytes n bits out e f g small),
      )
  | inr full ↦
      let many : 65_536 ≤ n = ground arith in
      inr (many, λ fuel. bytes_to_bits_loop-none fuel n 0 bytes bits many (omega arith))
]

-- Bits packed into bytes and laid out again are the same bits, when there are eight for each byte,
-- if there are fewer than 65536 bytes; with 65536 or more the first conversion does not end,
-- whatever number of rounds is allowed.
pub bytes_to_bits-bits_to_bytes :
    (bits : List Bool) (n : ℕ) (bytes : List ℕ) (out : List Bool)
    → length bits ≡ n * 8
    → length bytes ≡ n
    → length out ≡ n * 8
    → ((n < 65_536)
        × (packed : List ℕ) × (bits_to_bytes bits (n * 8) bytes n ≡ some packed)
        × (bytes_to_bits packed n out (n * 8) ≡ some bits))
      ⊎ ((65_536 ≤ n) × ((fuel : ℕ) → bits_to_bytes_loop fuel bits n 0 bytes ≡ none))
bytes_to_bits-bits_to_bytes bits n bytes out e f g = elim (Bool-cases (ltb n 65_536)) [
  | inl few ↦
      let small_enough : n < 65_536 = (ltb_iff n 65_536).0 few in
      inl (
        small_enough,
        bits_to_bytes_within bits (n * 8) bytes n,
        bits_to_bytes_within_lem bits (n * 8) bytes n (omega arith),
        bytes_to_bits_within_lem (bits_to_bytes_within bits (n * 8) bytes n) n out (n * 8)
              (omega arith)
            ∙ ap some (bytes_to_bits_within-bits_to_bytes_within bits n bytes out e f g),
      )
  | inr full ↦
      let many : 65_536 ≤ n = ground arith in
      inr (many, λ fuel. bits_to_bytes_loop-none fuel n 0 bits bytes many (omega arith))
]
