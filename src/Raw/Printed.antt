-- ===== src/Raw/Printed.antt =====
-- src/dmr/raw.c: the macro `AX`, whose call of `snprintf` has no room for the last digit, and
-- `dmr_raw_addf`, whose call has room for the NUL byte.
use dmrlib.Common.{
  ℕ, zero, suc, ◌+◌, ◌^◌, ◌<◌, ◌≤◌, ◌≡◌, refl, ap, ◌∙◌, arith, List, [], ◌∷◌, ◌++◌, length, get_or,
  set, take, fill, min, length-fill, length-set, length-append, get_or-fill_miss, get_or-set_ne,
  subst,
}
use dmrlib.Common.Bytes.{values, values-get_or, length-take, take-fill, take-set_next, append_assoc}
use dmrlib.Common.Bytes.{take_ext}
use dmrlib.Raw.{Memory, Raw, u64, print, raw_add_xuint, raw_addf, after_grow, raw_grow_add}
use dmrlib.Raw.Contents.{IsRaw, IsAppended, contents}
use dmrlib.Raw.Append.{Appends, after_grow-Appends}

-- What `print` stores where the text does not fit in `room` characters and the NUL.
take-print :
    (buf text : List ℕ) (o room : ℕ)
    → o + suc room ≤ length buf
    → room ≤ length text
    → take (o + suc room) (print buf o (suc room) text) ≡ take o buf ++ (take room text ++ (0 ∷ []))
unfolding print
take-print buf text o room fits long =
    ap (λ k. take k (print buf o (suc room) text)) {x = o + suc room} {y = suc (o + room)}
      (omega arith)
    ∙ ap
        (λ k.
          take (suc (o + room)) (set (fill k 0 (λ i. o + i) (λ i. get_or text i 0) buf) (o + k) 0))
        {x = min room (length text)} {y = room} (omega arith)
    ∙ take-set_next (o + room) (fill room 0 (λ i. o + i) (λ i. get_or text i 0) buf) 0
        (omega (arith, length-fill (λ i. o + i) (λ i. get_or text i 0) room 0 buf))
    ∙ ap (λ t. t ++ (0 ∷ []))
        (ap (λ k. take k (fill room 0 (λ i. o + i) (λ i. get_or text i 0) buf)) {x = o + room}
            {y = o + 0 + room} (omega arith)
          ∙ take-fill o room 0 (λ i. get_or text i 0) buf (omega arith)
          ∙ ap (λ k. take k buf ++ values room 0 (λ i. get_or text i 0)) {x = o + 0} {y = o}
              (omega arith)
          ∙ ap (λ t. take o buf ++ t) (values-get_or room 0 text long))
    ∙ append_assoc (take o buf) (take room text) (0 ∷ [])

pub length-print : (buf text : List ℕ) (o n : ℕ) → length (print buf o n text) ≡ length buf
unfolding print
length-print buf text o zero = refl
length-print buf text o (suc room) =
    length-set _ _ 0 ∙ length-fill _ _ (min room (length text)) 0 buf

module _ (memory : Memory) (room : ℕ) (text : List ℕ) (long : room ≤ length text) where
  abbrev pub printed : Raw → Raw
  printed r = record r {
    buf = print (memory.byte_zero r.buf r.len (suc room)) r.len (suc room) text;
    len = u64 (r.len + suc room);
  }

  length-zeroed : (r : Raw) → length (memory.byte_zero r.buf r.len (suc room)) ≡ length r.buf
  length-zeroed r =
      ap length (memory.byte_zero_fill r.buf r.len (suc room)) ∙ length-fill _ _ (suc room) 0 r.buf

  pub IsAppended-printed :
      (r : Raw)
      → r.len + suc room ≤ length r.buf
      → length r.buf < 2 ^ 63
      → IsAppended r (printed r) (take room text ++ (0 ∷ []))
  unfolding contents
  IsAppended-printed r fits small = record {
    appended =
        ap (λ k. take k (printed r).buf) {x = u64 (r.len + suc room)} {y = r.len + suc room}
          (omega arith)
        ∙ take-print (memory.byte_zero r.buf r.len (suc room)) text r.len room
            (omega (arith, length-zeroed r)) long
        ∙ ap (λ t. t ++ (take room text ++ (0 ∷ [])))
            (take_ext 0 r.len _ r.buf (omega (arith, length-zeroed r)) (omega arith) (λ i below.
              ap (λ t. get_or t i 0) (memory.byte_zero_fill r.buf r.len (suc room))
              ∙ get_or-fill_miss _ _ (suc room) 0 i 0 r.buf (λ j lo hi e. omega arith)));
    longer = omega (arith, length-append (take room text) (0 ∷ []), length-take room text long);
    same_length =
        length-print (memory.byte_zero r.buf r.len (suc room)) text r.len (suc room)
        ∙ length-zeroed r;
    same_allocated = refl;
  }

  -- When the format gives at least one character less than the size, and the size of a well-formed
  -- buffer stays below 2 ^ 63 - 127, the append of a printed number is done and appends as many
  -- characters as the size less one and a zero byte, or memory is refused and the buffer is
  -- unchanged.
  pub raw_add_xuint-Appends :
      (raw : Raw)
      → IsRaw raw
      → raw.len + suc room + 127 < 2 ^ 63
      → Appends memory raw
          (suc room)
          (take room text ++ (0 ∷ []))
          (raw_add_xuint memory (suc room) raw text)
  unfolding raw_add_xuint
  raw_add_xuint-Appends raw good fits =
      after_grow-Appends memory raw (suc room) good fits (take room text ++ (0 ∷ [])) printed
        (omega (arith, length-append (take room text) (0 ∷ []), length-take room text long))
        IsAppended-printed

-- What `dmr_raw_addf` stores: its NUL byte is past the new contents.
pub IsAppended-field :
    (n : ℕ) (words : List ℕ)
    → n ≤ length words
    → (raw : Raw) → raw.len + (n + 1) ≤ length raw.buf
    → length raw.buf < 2 ^ 63
    → IsAppended raw
        (record raw { buf = print raw.buf raw.len (u64 (n + 1)) words; len = u64 (raw.len + n) })
        (take n words)
unfolding contents print
IsAppended-field n words long raw inside below = record {
  appended =
      ap (λ k. take k (print raw.buf raw.len (u64 (n + 1)) words)) {x = u64 (raw.len + n)}
        {y = raw.len + n} (omega arith)
      ∙ ap (λ k. take (raw.len + n) (print raw.buf raw.len k words)) {x = u64 (n + 1)} {y = suc n}
          (omega arith)
      ∙ ap
          (λ k.
            take (raw.len + n)
              (set (fill k 0 (λ i. raw.len + i) (λ i. get_or words i 0) raw.buf) (raw.len + k) 0))
          {x = min n (length words)} {y = n} (omega arith)
      ∙ take_ext 0 (raw.len + n) _ filled
          (omega (arith, length-set filled (raw.len + n) 0, length_filled))
          (omega (arith, length_filled))
          (λ i before. get_or-set_ne filled (raw.len + n) i 0 0 (λ e. omega arith))
      ∙ ap (λ k. take k filled) {x = raw.len + n} {y = raw.len + 0 + n} (omega arith)
      ∙ take-fill raw.len n 0 (λ i. get_or words i 0) raw.buf (omega arith)
      ∙ ap (λ k. take k raw.buf ++ values n 0 (λ i. get_or words i 0)) {x = raw.len + 0}
          {y = raw.len} (omega arith)
      ∙ ap (λ t. take raw.len raw.buf ++ t) (values-get_or n 0 words long);
  longer = omega (arith, length-take n words long);
  same_length = length-print raw.buf words raw.len (u64 (n + 1));
  same_allocated = refl;
}
  where
    filled : List ℕ
    filled = fill n 0 (λ i. raw.len + i) (λ i. get_or words i 0) raw.buf

    length_filled : length filled ≡ length raw.buf
    length_filled = length-fill (λ i. raw.len + i) (λ i. get_or words i 0) n 0 raw.buf

-- When the format gives at least `n` characters, and the size of a well-formed buffer with one byte
-- more than these stays below 2 ^ 63 - 127, the append of a field of `n` characters is done and
-- appends the first `n` of the text without its NUL byte, or memory is refused and the buffer is
-- unchanged.
pub raw_addf-Appends :
    (memory : Memory) (raw : Raw) (n : ℕ) (words : List ℕ)
    → IsRaw raw
    → raw.len + (n + 1) + 127 < 2 ^ 63
    → n ≤ length words
    → Appends memory raw (n + 1) (take n words) (raw_addf memory raw n words)
unfolding raw_addf
raw_addf-Appends memory raw n words good fits long =
    subst
      (λ t. Appends memory raw (n + 1) (take n words) (
        after_grow memory (raw_grow_add memory raw t)
          (λ r. record r { buf = print r.buf r.len (u64 (n + 1)) words; len = u64 (r.len + n) })))
      {x = n + 1} {y = u64 (n + 1)} (omega arith)
      (after_grow-Appends memory raw (n + 1) good fits (take n words) _
        (omega (arith, length-take n words long))
        (λ r inside below. IsAppended-field n words long r inside below))
