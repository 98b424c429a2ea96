-- ===== src/Raw/Append.antt =====
-- src/dmr/raw.c: every append puts its bytes after the contents, or is refused and changes nothing.
use dmrlib.Common.{
  ℕ, zero, suc, ◌+◌, ◌/◌, ◌%◌, ◌^◌, ◌<◌, ◌≤◌, ◌≡◌, refl, ap, subst, ◌∙◌, ◌⊎◌, inl, inr, arith, List,
  [], ◌∷◌, ◌++◌, length, get_or, take, length-fill, fill, bit_and,
}
use dmrlib.Common.Bytes.{take-fill, values, values-get_or, length-take}
use dmrlib.Common.Fields.{and_low}
use dmrlib.Error.{Status, done, last_error}
use dmrlib.Raw.{Memory, Raw, u64, put, put_uint, after_grow, raw_grow_add, raw_add, raw_add_uint}
use dmrlib.Raw.Contents.{
  contents, IsRaw, IsAppended, Refused, IsAppended-put, IsAppended-refl, IsAppended-trans,
  IsRaw-IsAppended, raw_grow_add_outcome,
}

-- The low byte first.
unfoldable pub little_endian : ℕ → ℕ → List ℕ
little_endian zero v = []
little_endian (suc size) v = v % 256 ∷ little_endian size (v / 256)

-- Two digits for each byte.
unfoldable pub hex : (ℕ → ℕ) → List ℕ → List ℕ
hex digits [] = []
hex digits (b ∷ bytes) = digits (b / 16) ∷ digits (b % 16) ∷ hex digits bytes

-- What an append of `extra` with room for `n` bytes does: it is done and the buffer is well-formed
-- with `extra` after its contents, or memory is refused and the buffer is unchanged.
unfoldable pub Appends : Memory → Raw → ℕ → List ℕ → Status × Raw → Type 0
Appends memory raw n extra result =
    ((r : Raw) × (result ≡ (done, r)) × IsRaw r × (contents r ≡ contents raw ++ extra))
    ⊎ ((result ≡ (last_error, raw)) × Refused memory raw n)

module _ (memory : Memory) (raw : Raw) (n : ℕ) (good : IsRaw raw)
    (fits : raw.len + n + 127 < 2 ^ 63) where
  -- What stores within the room that growing gives.
  pub after_grow-Appends :
      (extra : List ℕ) (next : Raw → Raw)
      → length extra ≤ n
      → ((r : Raw) → r.len + n ≤ length r.buf → length r.buf < 2 ^ 63 → IsAppended r (next r) extra)
      → Appends memory raw n extra (after_grow memory (raw_grow_add memory raw n) next)
  unfolding Appends after_grow
  after_grow-Appends extra next short stores = elim (raw_grow_add_outcome memory raw n good fits) [
    | inl (r, e, grown) ↦
        let stored =
          stores r (omega (arith, grown.room, grown.same_len))
            (omega (arith, grown.well.size, grown.well.small)) in
        rw e (
          inl (
            next r,
            refl,
            IsRaw-IsAppended r (next r) extra grown.well stored
                (omega (arith, grown.room, grown.same_len)),
            stored.appended ∙ ap (λ t. t ++ extra) grown.same_contents,
          ))
    | inr (e, refused) ↦ rw e (inr (refl, refused))
  ]

pub IsAppended-copy :
    (memory : Memory) (r : Raw) (bytes : List ℕ) (n : ℕ)
    → n ≤ length bytes
    → r.len + n ≤ length r.buf
    → length r.buf < 2 ^ 63
    → IsAppended r
        (record r { buf = memory.byte_copy r.buf r.len bytes n; len = u64 (r.len + n) })
        (take n bytes)
unfolding contents
IsAppended-copy memory r bytes n enough room small = record {
  appended =
      ap (λ t. take (u64 (r.len + n)) t) (memory.byte_copy_fill r.buf r.len bytes n)
      ∙ ap (λ k. take k (fill n 0 (λ i. r.len + i) (λ i. get_or bytes i 0) r.buf))
          {x = u64 (r.len + n)} {y = r.len + 0 + n} (omega arith)
      ∙ take-fill r.len n 0 (λ i. get_or bytes i 0) r.buf (omega arith)
      ∙ ap (λ k. take k r.buf ++ values n 0 (λ i. get_or bytes i 0)) {x = r.len + 0} {y = r.len}
          (omega arith)
      ∙ ap (λ t. take r.len r.buf ++ t) (values-get_or n 0 bytes enough);
  longer = omega (arith, length-take n bytes enough);
  same_length = ap length (memory.byte_copy_fill r.buf r.len bytes n) ∙ length-fill _ _ n 0 r.buf;
  same_allocated = refl;
}

pub length-little_endian : (size v : ℕ) → length (little_endian size v) ≡ size
unfolding little_endian
length-little_endian zero v = refl
length-little_endian (suc size) v = ap suc (length-little_endian size (v / 256))

pub put_uint-IsAppended :
    (size v : ℕ) (r : Raw)
    → r.len + size ≤ length r.buf
    → length r.buf < 2 ^ 63
    → IsAppended r (put_uint size v r) (little_endian size v)
unfolding put_uint little_endian
put_uint-IsAppended zero v r room small = IsAppended-refl r
put_uint-IsAppended (suc size) v r room small =
    let first = IsAppended-put r (bit_and v 0xff) (omega arith) small in
    subst
      (λ b.
        IsAppended r (put_uint size (v / 256) (put r (bit_and v 0xff)))
          (b ∷ little_endian size (v / 256)))
      (and_low 8 v)
      (IsAppended-trans r (put r (bit_and v 0xff))
        (put_uint size (v / 256) (put r (bit_and v 0xff))) (bit_and v 0xff ∷ [])
        (little_endian size (v / 256)) first
        (put_uint-IsAppended size (v / 256) (put r (bit_and v 0xff))
          (omega (arith, first.longer, first.same_length)) (omega (arith, first.same_length))))

-- An unsigned number is appended with its low byte first.
pub raw_add_uint-Appends :
    (memory : Memory) (raw : Raw) (size v : ℕ)
    → IsRaw raw
    → raw.len + size + 127 < 2 ^ 63
    → Appends memory raw size (little_endian size v) (raw_add_uint memory size raw v)
unfolding raw_add_uint
raw_add_uint-Appends memory raw size v good fits =
    after_grow-Appends memory raw size good fits (little_endian size v) (put_uint size v)
      (omega (arith, length-little_endian size v)) (put_uint-IsAppended size v)

-- Appending `n` of at least `n` bytes to a well-formed buffer whose size stays below 2 ^ 63 - 127 is
-- done and gives a well-formed buffer with these bytes after its contents, or memory is refused,
-- which is the last error, and the buffer is unchanged.
pub raw_add-Appends :
    (memory : Memory) (raw : Raw) (bytes : List ℕ) (n : ℕ)
    → IsRaw raw
    → raw.len + n + 127 < 2 ^ 63
    → n ≤ length bytes
    → Appends memory raw n (take n bytes) (raw_add memory raw bytes n)
unfolding raw_add
raw_add-Appends memory raw bytes n good fits enough =
    after_grow-Appends memory raw n good fits (take n bytes) _
      (omega (arith, length-take n bytes enough)) (λ r room small. copied r room small)
  where
    copied :
        (r : Raw)
        → r.len + n ≤ length r.buf
        → length r.buf < 2 ^ 63
        → IsAppended r
            (record r { buf = memory.byte_copy r.buf r.len bytes n; len = u64 (r.len + n) })
            (take n bytes)
    copied r room small = IsAppended-copy memory r bytes n enough room small
