-- ===== src/Payload/Lc/Tests.antt =====
-- A concrete full link control message.
use dmrlib.Common.{◌≡◌, refl, arith, true, false, inl, [], ◌∷◌, replicate}
use dmrlib.Fec.Bptc.{Bptc}
use dmrlib.Error.{done, failed}
use dmrlib.Payload.Lc.{FullLc, full_lc_encode, full_lc_decode}
use dmrlib.Payload.Lc.RoundTrip.{received, full_lc_decode-encode}

abbrev group_call : FullLc
group_call = record {
  flco_pdu = 3;
  r = false;
  pf = false;
  fid = 16;
  service_options = 0;
  dst_id = 3120;
  src_id = 3120101;
  crc = 0 ∷ 0 ∷ 0 ∷ [];
}

abbrev old_lc : FullLc
old_lc = record {
  flco_pdu = 0;
  r = true;
  pf = true;
  fid = 0;
  service_options = 7;
  dst_id = 0;
  src_id = 0;
  crc = 0 ∷ 0 ∷ 0 ∷ [];
}

abbrev stack_bptc : Bptc
stack_bptc = record { raw = replicate 196 true; deinterleaved_bits = replicate 196 true }

full_lc_encode_idle :
    full_lc_encode (replicate 264 true) stack_bptc (replicate 33 0) group_call 9
    ≡ (failed, replicate 33 0)
unfolding full_lc_encode
full_lc_encode_idle = refl

full_lc_decode-encode_example :
    ((full_lc_encode (replicate 264 true) stack_bptc (replicate 33 0) group_call 1).0 ≡ done)
    × (full_lc_decode
          (λ i. 0)
          (replicate 4 false)
          true
          (full_lc_encode (replicate 264 true) stack_bptc (replicate 33 0) group_call 1).1
          old_lc
          1
        ≡ (done, received group_call old_lc))
full_lc_decode-encode_example =
    full_lc_decode-encode (λ i. 0) (replicate 4 false) (replicate 264 true) stack_bptc
      (replicate 33 0) group_call old_lc 1 (omega arith) refl refl refl
      (record {
        pdu_small = omega arith;
        fid_small = omega arith;
        dst_small = omega arith;
        src_small = omega arith;
      })
      (inl refl)
