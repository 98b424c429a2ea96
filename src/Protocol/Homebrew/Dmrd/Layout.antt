-- ===== src/Protocol/Homebrew/Dmrd/Layout.antt =====
-- src/dmr/protocol/homebrew.c: where a packet is in the frame that is sent, and what is parsed.
use dmrlib.Common.{
  ℕ, ◌+◌, ◌%◌, ◌^◌, ◌<◌, ◌≤◌, ◌≡◌, refl, ap, ◌∙◌, arith, List, [], ◌∷◌, ◌++◌, length, take,
  replicate, if-then, ltb, ltb_iff, bit_and,
}
use dmrlib.Common.Fields.{and_low}
use dmrlib.Error.{done}
use dmrlib.Raw.{
  Memory, Raw, u64, after_grow, raw_grow_add, raw_grow, raw_add, raw_add_uint8, raw_add_uint,
}
use dmrlib.Raw.Contents.{contents, IsAppended, IsAppended-put, IsAppended-refl, IsAppended-trans}
use dmrlib.Raw.Append.{little_endian, put_uint-IsAppended, IsAppended-copy}
use dmrlib.Packet.{ParsedPacket}
use dmrlib.Protocol.Homebrew.Dmrd.{dmrd, dmrd_frame}

raw_grow_add_within :
    (memory : Memory) (raw : Raw) (n : ℕ)
    → raw.len + n < raw.allocated
    → raw.allocated < 2 ^ 63
    → raw_grow_add memory raw n ≡ (done, raw)
unfolding raw_grow_add raw_grow
raw_grow_add_within memory raw n room below =
    if-then (ltb (u64 (raw.len + n)) raw.allocated) _ _
      ((ltb_iff (u64 (raw.len + n)) raw.allocated).1 (omega arith))

module _ (memory : Memory) (start : Raw) (size : length start.buf ≡ start.allocated)
    (small : start.allocated < 2 ^ 63) where
  -- One append more, while there is room.
  extend :
      (raw : Raw) (held extra : List ℕ) (n : ℕ) (next : Raw → Raw)
      → IsAppended start raw held
      → start.len + length held + n < start.allocated
      → ((r : Raw) → r.len + n ≤ length r.buf → length r.buf < 2 ^ 63 → IsAppended r (next r) extra)
      → IsAppended start (after_grow memory (raw_grow_add memory raw n) next).1 (held ++ extra)
  unfolding after_grow
  extend raw held extra n next before room stores =
      rw
        (raw_grow_add_within memory raw n
          (omega (arith, before.longer, before.same_allocated, small))
          (omega (arith, before.longer, before.same_allocated, small)))
        (IsAppended-trans start raw (next raw) held extra before (
          stores raw (omega (arith, before.longer, before.same_length, size))
            (omega (arith, before.same_length, size, small))))

-- The bytes of the frame.
unfoldable pub frame_bytes : ℕ → ParsedPacket → List ℕ
frame_bytes info parsed =
    dmrd
    ++ ((parsed.sequence % 256 ∷ [])
        ++ (little_endian 3 parsed.src_id
            ++ (little_endian 3 parsed.dst_id
                ++ (little_endian 4 parsed.repeater_id
                    ++ ((info ∷ [])
                        ++ (little_endian 4 parsed.stream_id ++ take 33 parsed.packet))))))

-- A new buffer for the 53 bytes.
abbrev pub fresh : Raw
fresh = record { buf = replicate 128 0; allocated = 128; len = 0 }

module _ (memory : Memory) where
  add_bytes :
      (raw : Raw) (held bytes : List ℕ) (n : ℕ)
      → n ≤ length bytes
      → IsAppended fresh raw held
      → length held + n < 128
      → IsAppended fresh (raw_add memory raw bytes n).1 (held ++ take n bytes)
  unfolding raw_add
  add_bytes raw held bytes n enough before room =
      extend memory fresh refl (omega arith) raw held (take n bytes) n _ before (omega arith)
        (λ r. IsAppended-copy memory r bytes n enough)

  add_uint :
      (raw : Raw) (held : List ℕ) (n v : ℕ)
      → IsAppended fresh raw held
      → length held + n < 128
      → IsAppended fresh (raw_add_uint memory n raw v).1 (held ++ little_endian n v)
  unfolding raw_add_uint
  add_uint raw held n v before room =
      extend memory fresh refl (omega arith) raw held (little_endian n v) n _ before (omega arith)
        (put_uint-IsAppended n v)

  add_uint8 :
      (raw : Raw) (held : List ℕ) (v : ℕ)
      → IsAppended fresh raw held
      → length held + 1 < 128
      → IsAppended fresh (raw_add_uint8 memory raw v).1 (held ++ (v ∷ []))
  unfolding raw_add_uint8
  add_uint8 raw held v before room =
      extend memory fresh refl (omega arith) raw held (v ∷ []) 1 _ before (omega arith)
        (λ r fits small. IsAppended-put r v (omega arith) small)

  -- The frame of a packet of at least 33 bytes, in a new buffer, is its bytes.
  pub contents-dmrd_frame :
      (info : ℕ) (parsed : ParsedPacket)
      → 33 ≤ length parsed.packet
      → contents (dmrd_frame memory info parsed fresh) ≡ frame_bytes info parsed
  unfolding dmrd_frame frame_bytes little_endian contents
  contents-dmrd_frame info parsed enough =
      let h0 = IsAppended-refl fresh in
      let h1 = add_bytes fresh [] dmrd 4 (omega arith) h0 (omega arith) in
      let h2 = add_uint8 _ _ (bit_and parsed.sequence 0xff) h1 (omega arith) in
      let h3 = add_uint _ _ 3 parsed.src_id h2 (omega arith) in
      let h4 = add_uint _ _ 3 parsed.dst_id h3 (omega arith) in
      let h5 = add_uint _ _ 4 parsed.repeater_id h4 (omega arith) in
      let h6 = add_uint8 _ _ info h5 (omega arith) in
      let h7 = add_uint _ _ 4 parsed.stream_id h6 (omega arith) in
      let h8 = add_bytes _ _ parsed.packet 33 enough h7 (omega arith) in
      h8.appended
      ∙ ap
          (λ (b : ℕ).
            dmrd
            ++ ((b ∷ [])
                ++ (little_endian 3 parsed.src_id
                    ++ (little_endian 3 parsed.dst_id
                        ++ (little_endian 4 parsed.repeater_id
                            ++ ((info ∷ [])
                                ++ (little_endian 4 parsed.stream_id ++ take 33 parsed.packet)))))))
          (and_low 8 parsed.sequence)
