-- ===== src/Payload/Lc.antt =====
-- src/dmr/payload/lc.c: full link control messages. The NULL checks and the log are left out.
pub mod Mask
pub mod RoundTrip
mod Tests
use dmrlib.Common.{ℕ, ◌+◌, Bool, true, false, not, ◌&&◌, List, [], ◌∷◌}
use dmrlib.Common.{
  ◌==◌, leb, if◌then◌else◌, ◌<<<◌, ◌>>>◌, u8, get_or, drop, replicate, fill, bit_and, bit_or,
  bit_xor,
}
use dmrlib.Error.{Status, done, failed, invalid_argument, out_of_memory, last_error}
use dmrlib.Fec.Rs.{rs_12_9_4_decode, rs_12_9_4_encode}
use dmrlib.Fec.Bptc.{Bptc, bptc_196_96_decode, bptc_196_96_encode}

-- `dmr_full_lc`.
pub record FullLc : Type 0 where
  pub flco_pdu : ℕ
  pub r : Bool
  pub pf : Bool
  pub fid : ℕ
  pub service_options : ℕ
  pub dst_id : ℕ
  pub src_id : ℕ
  pub crc : List ℕ

abbrev pub flco_pdu_private : ℕ
flco_pdu_private = 3

abbrev pub data_type_voice_lc : ℕ
data_type_voice_lc = 1

abbrev pub data_type_terminator_with_lc : ℕ
data_type_terminator_with_lc = 2

abbrev pub data_type_invalid : ℕ
data_type_invalid = 10

abbrev pub crc_mask_lc : List ℕ
crc_mask_lc = 0x69 ∷ 0x96 ∷ 0x99 ∷ 0xa5 ∷ 0xaa ∷ 0x00 ∷ 0xcc ∷ 0xf0 ∷ 0xff ∷ 0x00 ∷ []

-- `bytes[9] ^= mask; bytes[10] ^= mask; bytes[11] ^= mask;`
unfoldable pub apply_mask : ℕ → List ℕ → List ℕ
apply_mask mask bytes = fill 3 9 (λ i. i) (λ i. bit_xor (get_or bytes i 0) mask) bytes

-- The nine bytes that are assigned, before the parity.
unfoldable pub lc_bytes : FullLc → List ℕ
lc_bytes lc =
    u8 (bit_or (u8 lc.flco_pdu) (if lc.flco_pdu == flco_pdu_private then 0x80 else 0x00))
    ∷ u8 lc.fid
    ∷ 0
    ∷ u8 (lc.dst_id >>> 16)
    ∷ u8 (lc.dst_id >>> 8)
    ∷ u8 (lc.dst_id >>> 0)
    ∷ u8 (lc.src_id >>> 16)
    ∷ u8 (lc.src_id >>> 8)
    ∷ u8 (lc.src_id >>> 0)
    ∷ 0
    ∷ 0
    ∷ 0
    ∷ []

unfoldable pub full_lc_encode_bytes : FullLc → List ℕ
full_lc_encode_bytes lc = rs_12_9_4_encode (lc_bytes lc)

-- `bits` and `bptc` are the uninitialised arrays of the BPTC encoder and of this function.
unfoldable pub full_lc_encode : List Bool → Bptc → List ℕ → FullLc → ℕ → Status × List ℕ
full_lc_encode bits bptc packet lc data_type =
    if not (data_type == data_type_voice_lc) && not (data_type == data_type_terminator_with_lc)
    then (failed, packet)
    else (
      done,
      (bptc_196_96_encode bits packet bptc
          (apply_mask (get_or crc_mask_lc data_type 0) (full_lc_encode_bytes lc))).1,
    )

-- The fields that are assigned from the bytes; the others keep their values.
unfoldable pub read_lc : FullLc → List ℕ → FullLc
read_lc lc bytes = record {
  flco_pdu = bit_and (get_or bytes 0 0) 0x3f;
  r = lc.r;
  pf = false;
  fid = get_or bytes 1 0;
  service_options = lc.service_options;
  dst_id = bit_or (bit_or (get_or bytes 3 0 <<< 16) (get_or bytes 4 0 <<< 8)) (get_or bytes 5 0);
  src_id = bit_or (bit_or (get_or bytes 6 0 <<< 16) (get_or bytes 7 0 <<< 8)) (get_or bytes 8 0);
  crc = drop 9 bytes;
}

-- `allocated` is whether `talloc_zero` returns an array; `beyond` and `p` are those of the Hamming
-- decoder.
module _ (beyond : ℕ → ℕ) (p : List Bool) (allocated : Bool) where
  unfoldable pub full_lc_decode : List ℕ → FullLc → ℕ → Status × FullLc
  full_lc_decode packet lc data_type =
      if leb data_type_invalid data_type
      then (invalid_argument, lc)
      else (if allocated
          then (let empty : Bptc = record {
            raw = replicate 196 false;
            deinterleaved_bits = replicate 196 false;
          } in
              let (decoded, _, masked) =
                bptc_196_96_decode beyond p packet empty (replicate 12 0) in
              let bytes = apply_mask (get_or crc_mask_lc data_type 0) masked in
              if decoded
              then (if rs_12_9_4_decode bytes then (done, read_lc lc bytes) else (failed, lc))
              else (last_error, lc))
          else (out_of_memory, lc))
