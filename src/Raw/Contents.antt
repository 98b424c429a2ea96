-- ===== src/Raw/Contents.antt =====
-- src/dmr/raw.c: the bytes that a buffer holds, and what growing and storing do to them.
use dmrlib.Common.{
  ℕ, suc, ◌+◌, ◌-◌, ◌*◌, ◌/◌, ◌^◌, ◌<◌, ◌≤◌, ◌≡◌, refl, sym, ap, ◌∙◌, ◌⊎◌, inl, inr, arith,
  Bool-cases, Option, none, some, List, [], ◌∷◌, ◌++◌, length, get_or, set, take, length-set,
  ltb_iff, true, false, length-fill, get_or-fill_miss, ltb, bit_and, if-then, if-else,
  length-append,
}
use dmrlib.Common.Bytes.{take-set_next, append_assoc, append-nil, take_ext}
use dmrlib.Common.Fields.{and_shift, and_low}
use dmrlib.Error.{Status, done, out_of_memory}
use dmrlib.Raw.{Memory, Raw, u64, round_up, put, regrow, raw_grow, raw_grow_add}

unfoldable pub contents : Raw → List ℕ
contents raw = take raw.len raw.buf

-- The invariant of a buffer.
pub record IsRaw (raw : Raw) : Type 0 where
  pub size : length raw.buf ≡ raw.allocated
  pub within : raw.len ≤ raw.allocated
  pub small : raw.allocated < 2 ^ 63

-- `r` is `raw` with `extra` after its contents, in the same memory.
pub record IsAppended (raw r : Raw) (extra : List ℕ) : Type 0 where
  pub appended : contents r ≡ contents raw ++ extra
  pub longer : r.len ≡ raw.len + length extra
  pub same_length : length r.buf ≡ length raw.buf
  pub same_allocated : r.allocated ≡ raw.allocated

pub round_up-bounds : (n : ℕ) → n + 127 < 2 ^ 63 → (n ≤ round_up n) × (round_up n ≤ n + 127)
unfolding round_up
round_up-bounds n small = (omega (arith, masked), omega (arith, masked))
  where
    masked : bit_and (u64 (n + 127)) 0xffffffffffffff80 ≡ (n + 127) / 128 * 128
    masked =
        ap (λ (t : ℕ). bit_and t 0xffffffffffffff80) {x = u64 (n + 127)} {y = n + 127} (omega arith)
        ∙ and_shift 7 (n + 127) (2 ^ 57 - 1)
        ∙ ap (λ (t : ℕ). t * 128) (and_low 57 ((n + 127) / 128))
        ∙ omega arith

pub IsAppended-put :
    (raw : Raw) (b : ℕ)
    → raw.len < length raw.buf
    → length raw.buf < 2 ^ 63
    → IsAppended raw (put raw b) (b ∷ [])
unfolding put contents
IsAppended-put raw b room small = record {
  appended =
      ap (λ t. take t (set raw.buf raw.len b)) {x = u64 (raw.len + 1)} {y = suc raw.len}
        (omega arith)
      ∙ take-set_next raw.len raw.buf b room;
  longer = omega arith;
  same_length = length-set raw.buf raw.len b;
  same_allocated = refl;
}

pub IsAppended-refl : (raw : Raw) → IsAppended raw raw []
IsAppended-refl raw = record {
  appended = sym (append-nil (contents raw));
  longer = omega arith;
  same_length = refl;
  same_allocated = refl;
}

pub IsAppended-trans :
    (raw r s : Raw) (xs ys : List ℕ)
    → IsAppended raw r xs
    → IsAppended r s ys
    → IsAppended raw s (xs ++ ys)
IsAppended-trans raw r s xs ys h k = record {
  appended = k.appended ∙ ap (λ t. t ++ ys) h.appended ∙ append_assoc (contents raw) xs ys;
  longer = omega (arith, h.longer, k.longer, length-append xs ys);
  same_length = k.same_length ∙ h.same_length;
  same_allocated = k.same_allocated ∙ h.same_allocated;
}

pub IsRaw-IsAppended :
    (raw r : Raw) (extra : List ℕ)
    → IsRaw raw
    → IsAppended raw r extra
    → raw.len + length extra ≤ length raw.buf
    → IsRaw r
IsRaw-IsAppended raw r extra well h room = record {
  size = h.same_length ∙ well.size ∙ sym h.same_allocated;
  within = omega (arith, h.longer, h.same_allocated, well.size);
  small = omega (arith, h.same_allocated, well.small);
}

-- There is no room and `talloc_realloc` gives none.
unfoldable pub Refused : Memory → Raw → ℕ → Type 0
Refused memory raw n =
    (raw.allocated ≤ raw.len + n) × (memory.realloc raw.buf (round_up (raw.len + n)) ≡ none)

-- What growing gives: the same contents with room after them.
pub record IsGrown (raw r : Raw) (n : ℕ) : Type 0 where
  pub well : IsRaw r
  pub same_len : r.len ≡ raw.len
  pub same_contents : contents r ≡ contents raw
  pub room : raw.len + n ≤ length r.buf

module _ (memory : Memory) (raw : Raw) (n : ℕ) (good : IsRaw raw)
    (fits : raw.len + n + 127 < 2 ^ 63) where
  abbrev target : ℕ
  target = round_up (raw.len + n)

  abbrev zeroed : List ℕ → List ℕ
  zeroed tmp = memory.byte_zero tmp raw.len (u64 (target + (2 ^ 64 - raw.len)))

  length-zeroed : (tmp : List ℕ) → length (zeroed tmp) ≡ length tmp
  length-zeroed tmp = ap length (memory.byte_zero_fill tmp raw.len _) ∙ length-fill _ _ _ 0 tmp

  regrown :
      (tmp : List ℕ)
      → memory.realloc raw.buf target ≡ some tmp
      → IsGrown raw (record raw { buf = zeroed tmp; allocated = target }) n
  unfolding contents
  regrown tmp h = record {
    well = record {
      size = length-zeroed tmp ∙ memory.length-realloc raw.buf tmp target h;
      within = omega (arith, round_up-bounds (raw.len + n) fits);
      small = omega (arith, round_up-bounds (raw.len + n) fits);
    };
    same_len = refl;
    same_contents =
        take_ext 0 raw.len (zeroed tmp) raw.buf
          (omega (
            arith,
            length-zeroed tmp,
            memory.length-realloc raw.buf tmp target h,
            round_up-bounds (raw.len + n) fits,
          ))
          (omega (arith, good.size, good.within))
          (λ i below.
            ap (λ t. get_or t i 0) (memory.byte_zero_fill tmp raw.len _)
            ∙ get_or-fill_miss _ _ _ 0 i 0 tmp (λ j lo hi e. omega arith)
            ∙ memory.get_or-realloc raw.buf tmp target i h
                (omega (arith, round_up-bounds (raw.len + n) fits))
                (omega (arith, good.size, good.within)));
    room = omega (
      arith,
      length-zeroed tmp,
      memory.length-realloc raw.buf tmp target h,
      round_up-bounds (raw.len + n) fits,
    );
  }

  pub exact : raw_grow_add memory raw n ≡ raw_grow memory raw (raw.len + n)
  unfolding raw_grow_add
  exact = ap (raw_grow memory raw) {x = u64 (raw.len + n)} {y = raw.len + n} (omega arith)

  abbrev Granted : Status × Raw → Type 0
  Granted result =
      ((r : Raw) × (result ≡ (done, r)) × IsGrown raw r n)
      ⊎ ((result ≡ (out_of_memory, raw)) × Refused memory raw n)

  by_answer :
      (answer : Option (List ℕ))
      → memory.realloc raw.buf target ≡ answer
      → raw.allocated ≤ raw.len + n
      → Granted (regrow memory raw target answer)
  unfolding regrow Refused
  by_answer none h full = inr (refl, (full, h))
  by_answer (some tmp) h full =
      inl (record raw { buf = zeroed tmp; allocated = target }, refl, regrown tmp h)

  pub grow_room :
      ltb (raw.len + n) raw.allocated ≡ true → raw_grow memory raw (raw.len + n) ≡ (done, raw)
  unfolding raw_grow
  grow_room h = if-then _ _ _ h

  grow_full :
      ltb (raw.len + n) raw.allocated ≡ false
      → raw_grow memory raw (raw.len + n) ≡ regrow memory raw target (memory.realloc raw.buf target)
  unfolding raw_grow
  grow_full h = if-else _ _ _ h

  -- Growing gives room, or is refused and changes nothing.
  pub raw_grow_add_outcome : Granted (raw_grow_add memory raw n)
  raw_grow_add_outcome = rw exact (elim (Bool-cases (ltb (raw.len + n) raw.allocated)) [
    | inl room ↦ inl (
      raw,
      grow_room room,
      record {
        well = good;
        same_len = refl;
        same_contents = refl;
        room = omega (arith, good.size, (ltb_iff (raw.len + n) raw.allocated).0 room);
      },
    )
    | inr full ↦ rw (grow_full full) (by_answer (memory.realloc raw.buf target) refl (ground arith))
  ])
