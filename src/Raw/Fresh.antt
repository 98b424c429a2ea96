-- ===== src/Raw/Fresh.antt =====
-- src/dmr/raw.c: new, reset and zeroed buffers.
use dmrlib.Common.{
  ℕ, zero, suc, ◌+◌, ◌^◌, ◌<◌, ◌≤◌, ◌≡◌, refl, ap, ◌∙◌, arith, [], ◌∷◌, length, take, length-fill,
  fill, length-replicate, replicate, some, true,
}
use dmrlib.Common.Bytes.{values, take-fill}
use dmrlib.Raw.{Memory, Raw, round_up, raw_new, raw_reset, raw_zero}
use dmrlib.Raw.Contents.{IsRaw, contents, round_up-bounds}

-- With memory, a new buffer for less than 2 ^ 63 - 127 bytes is well-formed and empty and has room
-- for what was asked.
pub raw_new-IsRaw :
    (n : ℕ)
    → n + 127 < 2 ^ 63
    → (r : Raw) × (raw_new true true n ≡ some r) × IsRaw r × (contents r ≡ []) × (n ≤ r.allocated)
unfolding raw_new contents
raw_new-IsRaw n fits = (
  record { buf = replicate (round_up n) 0; allocated = round_up n; len = 0 },
  refl,
  record {
    size = length-replicate (round_up n) 0;
    within = omega arith;
    small = omega (arith, round_up-bounds n fits);
  },
  refl,
  omega (arith, round_up-bounds n fits),
)

zeros : (n i : ℕ) → values {A = ℕ} n i (λ _. 0) ≡ replicate n 0
unfolding values
zeros zero i = refl
zeros (suc n) i = ap (λ t. 0 ∷ t) (zeros n (i + 1))

module _ (memory : Memory) (raw : Raw) (good : IsRaw raw) where
  length-zeroed : (n : ℕ) → length (memory.byte_zero raw.buf 0 n) ≡ length raw.buf
  length-zeroed n = ap length (memory.byte_zero_fill raw.buf 0 n) ∙ length-fill _ _ n 0 raw.buf

  -- Resetting a well-formed buffer empties it; zeroing one keeps its size and makes every byte of its contents zero;
  -- both keep it well-formed.
  pub raw_reset-raw_zero :
      (IsRaw (raw_reset memory raw) × (contents (raw_reset memory raw) ≡ []))
      × (IsRaw (raw_zero memory raw) × (contents (raw_zero memory raw) ≡ replicate raw.len 0))
  unfolding raw_reset raw_zero contents
  raw_reset-raw_zero = (
    (
      record {
        size = length-zeroed raw.allocated ∙ good.size;
        within = omega arith;
        small = good.small;
      },
      refl,
    ),
    (
      record { size = length-zeroed raw.len ∙ good.size; within = good.within; small = good.small },
      ap (take raw.len) (memory.byte_zero_fill raw.buf 0 raw.len)
          ∙ ap (λ k. take k (fill raw.len 0 (λ i. 0 + i) (λ _. 0) raw.buf)) {x = raw.len}
              {y = 0 + 0 + raw.len} (omega arith)
          ∙ take-fill 0 raw.len 0 (λ _. 0) raw.buf (omega (arith, good.size, good.within))
          ∙ zeros raw.len 0,
    ),
  )
