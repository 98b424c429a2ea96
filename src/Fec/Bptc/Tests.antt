-- ===== src/Fec/Bptc/Tests.antt =====
-- The block product turbo code at a concrete message.
use dmrlib.Common.{ℕ, ◌≡◌, refl, arith, true, false, List, [], ◌∷◌, replicate}
use dmrlib.Fec.Bptc.{
  Bptc, take_info, put_info, interleave, product_matrix, bptc_196_96_decode, bptc_196_96_encode,
}
use dmrlib.Fec.Bptc.RoundTrip.{bptc_196_96_decode-encode}

abbrev message : List ℕ
message = 0x00 ∷ 0x10 ∷ 0x20 ∷ 0x00 ∷ 0x0c ∷ 0x30 ∷ 0x2f ∷ 0x9b ∷ 0xe5 ∷ 0xda ∷ 0xd4 ∷ 0x5a ∷ []

abbrev empty : Bptc
empty = record { raw = replicate 196 false; deinterleaved_bits = replicate 196 false }

bptc_196_96_decode-encode_example :
    bptc_196_96_decode
      (λ i. 0)
      (replicate 4 false)
      (bptc_196_96_encode (replicate 264 true) (replicate 33 0) empty message).1
      empty
      (replicate 12 0)
    ≡ (
      true,
      record {
        raw =
            take_info
              (put_info (interleave (product_matrix message) empty.raw) (replicate 264 true))
              empty.raw;
        deinterleaved_bits = product_matrix message;
      },
      message,
    )
bptc_196_96_decode-encode_example =
    bptc_196_96_decode-encode (λ i. 0) (replicate 4 false) (replicate 264 true) (replicate 33 0)
      message (replicate 12 0) empty empty (omega arith) refl refl refl refl refl refl refl
      (omega arith)
