-- ===== src/Bits.antt =====
-- src/dmr/bits.c: bytes as arrays of eight booleans, most significant bit first.
-- The two loops over arrays count in `uint16_t` and do not end for 65536 or more bytes: `none`.
pub mod Ends
pub mod Convert
pub mod RoundTrip
mod Tests
use dmrlib.Common.{ℕ, zero, suc, ◌+◌, ◌-◌, ◌*◌, ◌/◌, ◌^◌, min, bit_and, bit_or, Bool, false}
use dmrlib.Common.{
  Option, none, some, u16, List, [], ◌∷◌, ltb, if◌then◌else◌, get_or, set, drop, fill,
}

unfoldable pub byte_to_bits : ℕ → List Bool
byte_to_bits byte =
    ltb 0 (bit_and byte 128)
    ∷ ltb 0 (bit_and byte 64)
    ∷ ltb 0 (bit_and byte 32)
    ∷ ltb 0 (bit_and byte 16)
    ∷ ltb 0 (bit_and byte 8)
    ∷ ltb 0 (bit_and byte 4)
    ∷ ltb 0 (bit_and byte 2)
    ∷ ltb 0 (bit_and byte 1)
    ∷ []

-- The loop of `dmr_bits_to_byte` from index `i`, with `n` rounds left.
bits_to_byte_from : List Bool → ℕ → ℕ → ℕ → ℕ
bits_to_byte_from bits zero i val = val
bits_to_byte_from bits (suc n) i val =
    bits_to_byte_from bits n (i + 1) (if get_or bits i false then bit_or val (2 ^ (7 - i)) else val)

unfoldable pub bits_to_byte : List Bool → ℕ
unfolding bits_to_byte_from
bits_to_byte bits = bits_to_byte_from bits 8 0 0

-- `dmr_byte_to_bits(bytes[i], &bits[i * 8])`.
unfoldable pub put_byte : List ℕ → ℕ → List Bool → List Bool
unfolding byte_to_bits fill
put_byte bytes i bits =
    fill 8 0 (λ k. i * 8 + k) (λ k. get_or (byte_to_bits (get_or bytes i 0)) k false) bits

-- The loop of `dmr_bytes_to_bits` from byte `i` on; none when the fuel is used up.
unfoldable pub bytes_to_bits_loop : ℕ → List ℕ → ℕ → ℕ → List Bool → Option (List Bool)
bytes_to_bits_loop zero bytes bound i bits = none
bytes_to_bits_loop (suc fuel) bytes bound i bits =
    let rest = bytes_to_bits_loop fuel bytes bound (u16 (i + 1)) (put_byte bytes i bits) in
    if ltb i bound then rest else some bits

-- One round more than the counter has values.
unfoldable pub bytes_to_bits : List ℕ → ℕ → List Bool → ℕ → Option (List Bool)
bytes_to_bits bytes bytes_length bits bits_length =
    bytes_to_bits_loop 65_537 bytes (min (bits_length / 8) bytes_length) 0 bits

-- The loop of `dmr_bits_to_bytes`.
unfoldable pub bits_to_bytes_loop : ℕ → List Bool → ℕ → ℕ → List ℕ → Option (List ℕ)
bits_to_bytes_loop zero bits bound i bytes = none
bits_to_bytes_loop (suc fuel) bits bound i bytes =
    let rest =
      bits_to_bytes_loop fuel bits bound (u16 (i + 1))
        (set bytes i (bits_to_byte (drop (i * 8) bits))) in
    if ltb i bound then rest else some bytes

unfoldable pub bits_to_bytes : List Bool → ℕ → List ℕ → ℕ → Option (List ℕ)
bits_to_bytes bits bits_length bytes bytes_length =
    bits_to_bytes_loop 65_537 bits (min (bits_length / 8) bytes_length) 0 bytes

-- What the loops leave with fewer than 65536 bytes, as in every call in the library.
-- `n` rounds from byte `i` on.
bytes_to_bits_from : List ℕ → ℕ → ℕ → List Bool → List Bool
unfolding put_byte
bytes_to_bits_from bytes zero i bits = bits
bytes_to_bits_from bytes (suc n) i bits = bytes_to_bits_from bytes n (i + 1) (put_byte bytes i bits)

unfoldable pub bytes_to_bits_within : List ℕ → ℕ → List Bool → ℕ → List Bool
unfolding bytes_to_bits_from
bytes_to_bits_within bytes bytes_length bits bits_length =
    bytes_to_bits_from bytes (min (bits_length / 8) bytes_length) 0 bits

unfoldable pub bits_to_bytes_within : List Bool → ℕ → List ℕ → ℕ → List ℕ
unfolding bits_to_byte fill
bits_to_bytes_within bits bits_length bytes bytes_length =
    fill (min (bits_length / 8) bytes_length) 0 (λ i. i) (λ i. bits_to_byte (drop (i * 8) bits))
      bytes
