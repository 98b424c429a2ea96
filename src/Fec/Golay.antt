-- ===== src/Fec/Golay.antt =====
-- src/dmr/fec/golay_20_8.c: the Golay (20, 8) code of the slot type.
mod Decoder
mod Encoder
pub mod Syndrome
pub mod Linear
pub mod Correct
use dmrlib.Common.{ℕ, zero, suc, ◌+◌, ◌*◌, ◌/◌, ◌^◌, Bool, Option, none, some}
use dmrlib.Common.{◌==◌, ltb, if◌then◌else◌, ◌<<<◌, ◌>>>◌, u8, get_or, bit_and, bit_or, bit_xor}
unfoldable pub use Decoder.{decoder}
unfoldable pub use Encoder.{encoder}

-- `X22`, `X11`, `MASK12` and `GENPOL`.
abbrev pub x22 : ℕ
x22 = 0x400000

abbrev pub x11 : ℕ
x11 = 0x800

abbrev pub mask12 : ℕ
mask12 = 0xfffff800

abbrev pub genpol : ℕ
genpol = 0xc75

-- `while ((i & pattern) == 0) i >>= 1;`, with fuel.
unfoldable pub seek : ℕ → ℕ → ℕ → Option ℕ
seek zero pattern i = none
seek (suc fuel) pattern i =
    let further = seek fuel pattern (i / 2) in if bit_and i pattern == 0 then further else some i

-- The outer loop, with fuel. The product stays below `2 ^ 32`.
unfoldable pub divide : ℕ → ℕ → ℕ → Option ℕ
divide zero i pattern = none
divide (suc fuel) i pattern =
    let round : Option ℕ = elim (seek 24 pattern i) [
      | none ↦ none
      | some j ↦ divide fuel j (bit_xor pattern (j / x11 * genpol))
    ] in
    if bit_and pattern mask12 == 0 then some pattern else round

-- `none` is a run out of fuel.
unfoldable pub golay_20_8_syndrome : ℕ → Option ℕ
golay_20_8_syndrome pattern = if ltb pattern x11 then some pattern else divide 24 x22 pattern

-- The three bytes as the word that the decoder reads; five bits of the last are not in it.
unfoldable pub code_of : ℕ → ℕ → ℕ → ℕ
code_of d0 d1 d2 = bit_or (bit_or (d0 <<< 11) (d1 <<< 3)) (d2 >>> 5)

-- The rest of the decoder, from the word on.
unfoldable pub repair : ℕ → Option ℕ
repair code = elim (golay_20_8_syndrome code) [
  | none ↦ none
  | some syndrome ↦
      let pattern = get_or decoder syndrome 0 in
      some (u8 ((if pattern == 0 then code else bit_xor code pattern) >>> 11))
]

unfoldable pub golay_20_8_decode : ℕ → ℕ → ℕ → Option ℕ
golay_20_8_decode d0 d1 d2 = repair (code_of d0 d1 d2)

-- The two bytes that are stored behind `data[0]`.
unfoldable pub golay_20_8_encode : ℕ → ℕ × ℕ
golay_20_8_encode d0 = let checksum = get_or encoder d0 0 in (u8 checksum, u8 (checksum >>> 8))
