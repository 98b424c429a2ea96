-- ===== src/Payload/Lc/RoundTrip.antt =====
-- A full link control message that is sent is received.
use dmrlib.Common.{ℕ, ◌^◌, ◌≤◌, ◌<◌, ◌≡◌, refl, ap, ◌∙◌, arith}
use dmrlib.Common.{
  Bool, true, false, not, ◌&&◌, ◌⊎◌, inl, inr, List, length, get_or, drop, replicate, ◌==◌, leb,
  if-else, u8,
}
use dmrlib.Common.{All}
use dmrlib.Bits.Convert.{IsByte}
use dmrlib.Fec.Rs.{rs_12_9_4_decode}
use dmrlib.Fec.Rs.Detect.{rs_12_9_4_decode-encode, rs_12_9_4_encode-IsByte}
use dmrlib.Fec.Bptc.{Bptc, bptc_196_96_encode}
use dmrlib.Fec.Bptc.RoundTrip.{bptc_196_96_decode-encode}
use dmrlib.Error.{done, failed}
use dmrlib.Payload.Lc.{FullLc, crc_mask_lc, apply_mask, lc_bytes, read_lc}
use dmrlib.Payload.Lc.{full_lc_encode_bytes, full_lc_encode, full_lc_decode}
use dmrlib.Payload.Lc.Mask.{
  apply_mask_twice, apply_mask-IsByte, length-apply_mask, three_bytes, pdu_lem, lc_bytes-IsByte,
}

-- The fields of a message that fit the bits they are sent in.
pub record IsSendable (lc : FullLc) : Type 0 where
  pub pdu_small : lc.flco_pdu < 64
  pub fid_small : lc.fid < 256
  pub dst_small : lc.dst_id < 2 ^ 24
  pub src_small : lc.src_id < 2 ^ 24

-- What the receiver's message holds then.
unfoldable pub received : FullLc → FullLc → FullLc
received lc old = record {
  flco_pdu = lc.flco_pdu;
  r = old.r;
  pf = false;
  fid = lc.fid;
  service_options = old.service_options;
  dst_id = lc.dst_id;
  src_id = lc.src_id;
  crc = drop 9 (full_lc_encode_bytes lc);
}

encode_bytes_lem :
    (lc : FullLc)
    → (rs_12_9_4_decode (full_lc_encode_bytes lc) ≡ true)
      × (length (full_lc_encode_bytes lc) ≡ 12)
      × ((k : ℕ) → k < 9 → get_or (full_lc_encode_bytes lc) k 0 ≡ get_or (lc_bytes lc) k 0)
unfolding full_lc_encode_bytes
encode_bytes_lem lc = rs_12_9_4_decode-encode (lc_bytes lc) (unfold lc_bytes in refl)

encode_bytes-IsByte : (lc : FullLc) → All IsByte (full_lc_encode_bytes lc)
unfolding full_lc_encode_bytes lc_bytes
encode_bytes-IsByte lc = rs_12_9_4_encode-IsByte (lc_bytes lc) (omega arith) (lc_bytes-IsByte lc)

read_lc_lem :
    (lc old : FullLc) → IsSendable lc → read_lc old (full_lc_encode_bytes lc) ≡ received lc old
unfolding read_lc received lc_bytes
read_lc_lem lc old s =
    let kept = (encode_bytes_lem lc).2 in
    rw
      (
        kept 0 (omega arith),
        kept 1 (omega arith),
        kept 3 (omega arith),
        kept 4 (omega arith),
        kept 5 (omega arith),
        kept 6 (omega arith),
        kept 7 (omega arith),
        kept 8 (omega arith),
        small_fid lc.fid s.fid_small,
        three_bytes lc.dst_id s.dst_small,
        three_bytes lc.src_id s.src_small,
        pdu_lem lc.flco_pdu s.pdu_small,
      )
      refl
  where
    small_fid : (x : ℕ) → x < 256 → u8 x ≡ x
    small_fid x h = omega arith

-- The two data types that a full link control message is sent with.
abbrev pub IsLcType : ℕ → Type 0
IsLcType data_type = (data_type ≡ 1) ⊎ (data_type ≡ 2)

mask-lt : (data_type : ℕ) → IsLcType data_type → get_or crc_mask_lc data_type 0 < 256
mask-lt data_type (inl one) = rw one (omega arith)
mask-lt data_type (inr two) = rw two (omega arith)

encode_lem :
    (bits : List Bool) (sent : Bptc) (packet : List ℕ) (lc : FullLc) (data_type : ℕ)
    → IsLcType data_type
    → full_lc_encode bits sent packet lc data_type ≡ (
      done,
      (bptc_196_96_encode bits packet sent
          (apply_mask (get_or crc_mask_lc data_type 0) (full_lc_encode_bytes lc))).1,
    )
unfolding full_lc_encode
encode_lem bits sent packet lc data_type kind =
    if-else (not (data_type == 1) && not (data_type == 2)) (failed, packet) _ (ground arith)

-- A message whose fields fit their bits, sent as a voice header or as a terminator in any packet
-- of 33 bytes, is received with its fields and its parity bytes, when the memory for the decoder
-- is given; the receiver's other fields keep their values but for `pf`, which is cleared.
pub full_lc_decode-encode :
    (beyond : ℕ → ℕ) (p bits : List Bool) (sent : Bptc) (packet : List ℕ) (lc old : FullLc)
    (data_type : ℕ)
    → 4 ≤ length p
    → length bits ≡ 264
    → length sent.raw ≡ 196
    → length packet ≡ 33
    → IsSendable lc
    → IsLcType data_type
    → ((full_lc_encode bits sent packet lc data_type).0 ≡ done)
      × (full_lc_decode beyond p true (full_lc_encode bits sent packet lc data_type).1 old data_type
          ≡ (done, received lc old))
unfolding full_lc_decode
full_lc_decode-encode beyond p bits sent packet lc old data_type room lb ls lp fits kind =
    let mask = get_or crc_mask_lc data_type 0 in
    let bytes = full_lc_encode_bytes lc in
    let sent_lem = encode_lem bits sent packet lc data_type kind in
    let small : leb 10 data_type ≡ false = ground arith in
    let length_sent : length (apply_mask mask bytes) ≡ 12 =
      length-apply_mask mask bytes ∙ (encode_bytes_lem lc).1 in
    let through =
      bptc_196_96_decode-encode beyond p bits packet (apply_mask mask bytes) (replicate 12 0) sent
        (record { raw = replicate 196 false; deinterleaved_bits = replicate 196 false }) room lb lp
        length_sent refl ls refl refl
        (apply_mask-IsByte mask bytes (mask-lt data_type kind) (encode_bytes-IsByte lc)) in
    (
      ap (λ t. t.0) sent_lem,
      rw
          (
            sent_lem,
            small,
            through,
            apply_mask_twice mask bytes,
            (encode_bytes_lem lc).0,
            read_lc_lem lc old fits,
          )
          refl,
    )
