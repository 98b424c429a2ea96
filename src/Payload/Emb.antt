-- ===== src/Payload/Emb.antt =====
-- src/dmr/payload/emb.c: embedded signalling. The checks for NULL and the log are left out.
pub mod Header
mod Tests
use dmrlib.Common.{
  ℕ, zero, suc, ◌+◌, ◌-◌, ◌*◌, ◌%◌, Bool, true, false, not, Option, none, some, List, [], ◌∷◌,
  get_or, set, replicate, fill, ltb, leb, ◌==◌, if◌then◌else◌, ◌<<<◌, ◌>>>◌, u8, u16, bit_and,
  bit_or,
}
use dmrlib.Error.{Status, done, invalid_argument}
use dmrlib.Bits.{bytes_to_bits_within, bits_to_bytes_within}
use dmrlib.Fec.Qr.{qr_16_7_encode, qr_16_7_decode}
use dmrlib.Fec.Vbptc.{Vbptc}
use dmrlib.Fec.Vbptc.Code.{get_fragment}
use dmrlib.Payload.Lc.{FullLc, full_lc_encode_bytes, data_type_invalid, flco_pdu_private}

-- `dmr_emb`.
pub record Emb : Type 0 where
  pub color_code : ℕ
  pub pi : Bool
  pub lcss : ℕ
  pub crc : ℕ

-- `dmr_emb_signalling_lc_bits`.
pub record SignallingBits : Type 0 where
  pub bits : List Bool
  pub checksum : List Bool

-- Two bytes from the halves of bytes 13 and 14, 18 and 19.
unfoldable pub emb_bytes : List ℕ → ℕ × ℕ
emb_bytes packet = (
  bit_or (bit_and (u8 (get_or packet 13 0 <<< 4)) 0xf0) (bit_and (get_or packet 14 0 >>> 4) 0x0f),
  bit_or (bit_and (u8 (get_or packet 18 0 <<< 4)) 0xf0) (bit_and (get_or packet 19 0 >>> 4) 0x0f),
)

unfoldable pub emb_decode : List ℕ → Emb → Bool × Emb
emb_decode packet emb =
    let bytes = emb_bytes packet in
    if qr_16_7_decode bytes
    then (
      true,
      record emb {
        color_code = bit_and (bytes.0 >>> 4) 0x0f;
        pi = bit_and bytes.0 0x08 == 0x08;
        lcss = bit_and (bytes.0 >>> 5) 0x07;
      },
    )
    else (false, emb)

unfoldable pub emb_bytes_decode : List ℕ → List ℕ → List ℕ
emb_bytes_decode packet bytes =
    let first =
      bit_or (bit_and (u8 (get_or packet 14 0 <<< 4)) 0xf0)
        (bit_and (get_or packet 15 0 >>> 4) 0x0f) in
    let second =
      bit_or (bit_and (u8 (get_or packet 15 0 <<< 4)) 0xf0)
        (bit_and (get_or packet 16 0 >>> 4) 0x0f) in
    set (set bytes 0 first) 1 second

unfoldable pub null_from : ℕ → ℕ → List ℕ → Bool
null_from zero i bytes = true
null_from (suc left) i bytes =
    let rest = null_from left (i + 1) bytes in if get_or bytes i 0 == 0 then rest else false

unfoldable pub emb_null : List ℕ → Bool
emb_null bytes = null_from 4 0 bytes

-- The first byte, before the code.
unfoldable pub header_byte : Emb → ℕ
header_byte emb =
    bit_or (bit_or (bit_and emb.color_code 0x0f) ((if emb.pi then 1 else 0) <<< 4))
      (u8 (bit_and emb.lcss 0x03 <<< 5))

unfoldable pub write_halves : List ℕ → ℕ × ℕ → List ℕ
write_halves packet (b0, b1) =
    let p13 = set packet 13 (u8 (bit_or (bit_and (get_or packet 13 0) 0xf0) (b0 >>> 4))) in
    let p14 = set p13 14 (u8 (bit_or (bit_and (get_or p13 14 0) 0x0f) (b0 <<< 4))) in
    let p18 = set p14 18 (u8 (bit_or (bit_and (get_or p14 18 0) 0xf0) (b1 >>> 4))) in
    set p18 19 (u8 (bit_or (bit_and (get_or p18 19 0) 0x0f) (b1 <<< 4)))

unfoldable pub emb_encode : List ℕ → Emb → List ℕ
emb_encode packet emb = write_halves packet (qr_16_7_encode (header_byte emb, 0))

-- The five places of the checksum among the 77 bits.
unfoldable pub checksum_place : ℕ → Option ℕ
checksum_place i =
    if i == 32
    then some 0
    else (if i == 43
        then some 1
        else (if i == 54
            then some 2
            else (if i == 65 then some 3 else (if i == 76 then some 4 else none))))

-- The bit for one place, and the next index of the other bits.
unfoldable pub next_bit : SignallingBits → ℕ → Option ℕ → Bool × ℕ
next_bit emb_bits j (some c) = (get_or emb_bits.checksum c false, j)
next_bit emb_bits j none = (get_or emb_bits.bits j false, u8 (j + 1))

unfoldable pub interlave_from : ℕ → ℕ → ℕ → SignallingBits → List Bool → List Bool
interlave_from zero i j emb_bits out = out
interlave_from (suc left) i j emb_bits out =
    let (bit, next) = next_bit emb_bits j (checksum_place i) in
    interlave_from left (i + 1) next emb_bits (set out i bit)

-- `memory` is what talloc gives, which is not cleared.
unfoldable pub signalling_lc_interlave : Option (List Bool) → SignallingBits → Option (List Bool)
signalling_lc_interlave none emb_bits = none
signalling_lc_interlave (some memory) emb_bits = some (interlave_from 77 0 0 emb_bits memory)

-- `left` rounds of the sum of bytes, in sixteen bits.
unfoldable pub sum_from : ℕ → ℕ → List ℕ → ℕ → ℕ
sum_from zero i bytes checksum = checksum
sum_from (suc left) i bytes checksum =
    sum_from left (i + 1) bytes (u16 (checksum + get_or bytes i 0))

-- The size that is taken is that of a pointer, 8.
unfoldable pub encode_signalling_lc_bytes : List ℕ → SignallingBits → SignallingBits
encode_signalling_lc_bytes bytes emb_bits =
    let checksum = sum_from 9 0 bytes 0 % 31 in
    record {
      bits = bytes_to_bits_within bytes 8 emb_bits.bits (8 * 8);
      checksum = fill 5 0 (λ i. i) (λ i. ltb 0 (checksum >>> (4 - i))) emb_bits.checksum;
    }

unfoldable pub encode_signalling_lc_from_full_lc :
    FullLc → SignallingBits → ℕ → Status × SignallingBits
encode_signalling_lc_from_full_lc lc emb_bits data_type =
    if leb data_type_invalid data_type
    then (invalid_argument, emb_bits)
    else (done, encode_signalling_lc_bytes (full_lc_encode_bytes lc) emb_bits)

-- The nine bytes of an address pair; `private` is whether `flco` is private.
unfoldable pub pair_bytes : Bool → ℕ → ℕ → List ℕ
pair_bytes private dst_id src_id =
    (if private then flco_pdu_private else 0)
    ∷ 0
    ∷ 0
    ∷ u8 (dst_id >>> 16)
    ∷ u8 (dst_id >>> 8)
    ∷ u8 dst_id
    ∷ u8 (src_id >>> 16)
    ∷ u8 (src_id >>> 8)
    ∷ u8 src_id
    ∷ []

unfoldable pub encode_signalling_lc : SignallingBits → Bool → ℕ → ℕ → SignallingBits
encode_signalling_lc emb_bits private dst_id src_id =
    encode_signalling_lc_bytes (pair_bytes private dst_id src_id) emb_bits

-- The 32 bits of a fragment, or zeros with no matrix.
unfoldable pub fragment_bits : Option Vbptc → ℕ → List Bool
fragment_bits none offset = replicate 32 false
fragment_bits (some vbptc) offset = get_fragment vbptc (replicate 32 false) offset 32

unfoldable pub write_fragment : List ℕ → List ℕ → List ℕ
write_fragment packet lc =
    let b0 = get_or lc 0 0 in
    let b1 = get_or lc 1 0 in
    let b2 = get_or lc 2 0 in
    let b3 = get_or lc 3 0 in
    let p14 = set packet 14 (u8 (bit_or (bit_and (get_or packet 14 0) 0xf0) (b0 >>> 4))) in
    let p15 = set p14 15 (u8 (bit_or (b0 <<< 4) (b1 >>> 4))) in
    let p16 = set p15 16 (u8 (bit_or (b1 <<< 4) (b2 >>> 4))) in
    let p17 = set p16 17 (u8 (bit_or (b2 <<< 4) (b3 >>> 4))) in
    set p17 18 (u8 (bit_or (b3 <<< 4) (get_or p17 18 0 >>> 4)))

unfoldable pub lcss_fragment_encode : List ℕ → Emb → Option Vbptc → ℕ → List ℕ
lcss_fragment_encode packet emb vbptc fragment =
    let bits = fragment_bits vbptc (u16 (fragment * 32)) in
    emb_encode (write_fragment packet (bits_to_bytes_within bits 32 (replicate 4 0) 4)) emb
