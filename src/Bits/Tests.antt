-- ===== src/Bits/Tests.antt =====
-- The conversions at concrete bytes.
use dmrlib.Common.{
  ℕ, ◌<◌, ◌≤◌, ◌≡◌, refl, ◌⊎◌, Bool, true, false, none, some, List, [], ◌∷◌, arith, replicate,
}
use dmrlib.Bits.{
  bits_to_byte, put_byte, bytes_to_bits_loop, bits_to_bytes_loop, bytes_to_bits, bits_to_bytes,
}
use dmrlib.Bits.RoundTrip.{bits_to_bytes-bytes_to_bits, bytes_to_bits-bits_to_bytes}

abbrev two_bytes : List ℕ
two_bytes = 0xa5 ∷ 0x0f ∷ []

abbrev sixteen_bits : List Bool
sixteen_bits =
    true ∷ false ∷ true ∷ false ∷ false ∷ true ∷ false ∷ true ∷ false ∷ false ∷ false ∷ false ∷ true
    ∷ true ∷ true ∷ true ∷ []

bytes_to_bits-two_bytes : bytes_to_bits_loop 3 two_bytes 2 0 (replicate 16 true) ≡ some sixteen_bits
unfolding bytes_to_bits_loop put_byte
bytes_to_bits-two_bytes = refl

-- Only as many bytes are written as the bound allows.
bits_to_bytes-short : bits_to_bytes_loop 2 sixteen_bits 1 0 (7 ∷ 7 ∷ []) ≡ some (0xa5 ∷ 7 ∷ [])
unfolding bits_to_bytes_loop bits_to_byte
bits_to_bytes-short = refl

bits_to_bytes-bytes_to_bits_example :
    ((2 < 65_536)
      × (laid : List Bool) × (bytes_to_bits two_bytes 2 (replicate 16 true) 16 ≡ some laid)
      × (bits_to_bytes laid 16 (0 ∷ 0 ∷ []) 2 ≡ some two_bytes))
    ⊎ ((65_536 ≤ 2)
        × ((fuel : ℕ) → bytes_to_bits_loop fuel two_bytes 2 0 (replicate 16 true) ≡ none))
bits_to_bytes-bytes_to_bits_example =
    bits_to_bytes-bytes_to_bits two_bytes 2 (replicate 16 true) (0 ∷ 0 ∷ []) refl refl refl
      (omega arith)

bytes_to_bits-bits_to_bytes_example :
    ((2 < 65_536)
      × (packed : List ℕ) × (bits_to_bytes sixteen_bits 16 (0 ∷ 0 ∷ []) 2 ≡ some packed)
      × (bytes_to_bits packed 2 (replicate 16 true) 16 ≡ some sixteen_bits))
    ⊎ ((65_536 ≤ 2) × ((fuel : ℕ) → bits_to_bytes_loop fuel sixteen_bits 2 0 (0 ∷ 0 ∷ []) ≡ none))
bytes_to_bits-bits_to_bytes_example =
    bytes_to_bits-bits_to_bytes sixteen_bits 2 (0 ∷ 0 ∷ []) (replicate 16 true) refl refl refl
