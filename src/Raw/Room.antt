-- ===== src/Raw/Room.antt =====
-- src/dmr/raw.c: appends to a buffer that has room for them and so does not grow.
use dmrlib.Common.{
  ℕ, suc, ◌+◌, ◌*◌, ◌^◌, ◌<◌, ◌≤◌, ◌≡◌, refl, ap, subst, ◌∙◌, arith, List, [], ◌∷◌, ◌++◌, length,
  take, ltb_iff, length-append, replicate, length-replicate,
}
use dmrlib.Common.Bytes.{values-get_or, length-take}
use dmrlib.Raw.{
  Memory, Raw, u64, round_up, print, after_grow, raw_grow_add, raw_add, raw_add_hex, put_hex,
  raw_add_xuint, raw_addf,
}
use dmrlib.Raw.Contents.{
  contents, IsRaw, IsAppended, IsRaw-IsAppended, exact, grow_room, round_up-bounds,
}
use dmrlib.Raw.Append.{hex, IsAppended-copy}
use dmrlib.Raw.Digits.{put_hex-IsAppended, length-hex}
use dmrlib.Raw.Printed.{printed, IsAppended-printed, IsAppended-field}
use dmrlib.Common.Bytes.{take_all}

-- A buffer of `size` bytes that holds a text.
pub record Holds (size : ℕ) (raw : Raw) (text : List ℕ) : Type 0 where
  pub well : IsRaw raw
  pub held : contents raw ≡ text
  pub length_held : raw.len ≡ length text
  pub allocated_size : raw.allocated ≡ size

pub Holds-new :
    (n : ℕ)
    → n + 127 < 2 ^ 63
    → Holds
        (round_up n)
        (record { buf = replicate (round_up n) 0; allocated = round_up n; len = 0 })
        []
unfolding contents
Holds-new n fits = record {
  well = record {
    size = length-replicate (round_up n) 0;
    within = omega arith;
    small = omega (arith, round_up-bounds n fits);
  };
  held = refl;
  length_held = refl;
  allocated_size = refl;
}

Holds-IsAppended :
    (size : ℕ) (raw r : Raw) (text extra : List ℕ)
    → Holds size raw text
    → length text + length extra ≤ size
    → IsAppended raw r extra
    → Holds size r (text ++ extra)
Holds-IsAppended size raw r text extra h room more = record {
  well =
      IsRaw-IsAppended raw r extra h.well more
        (omega (arith, h.length_held, h.allocated_size, h.well.size));
  held = more.appended ∙ ap (λ t. t ++ extra) h.held;
  length_held = omega (arith, more.longer, h.length_held, length-append text extra);
  allocated_size = more.same_allocated ∙ h.allocated_size;
}

module _ (memory : Memory) (size : ℕ) (raw : Raw) (text : List ℕ) (h : Holds size raw text)
    (small : size + 127 < 2 ^ 63) where
  -- An append that finds room for `n` bytes and stores at most as many.
  Holds-after_grow :
      (n : ℕ) (extra : List ℕ) (next : Raw → Raw)
      → length text + n < size
      → length extra ≤ n
      → (raw.len + n ≤ length raw.buf → length raw.buf < 2 ^ 63 → IsAppended raw (next raw) extra)
      → Holds size (after_grow memory (raw_grow_add memory raw n) next).1 (text ++ extra)
  unfolding after_grow
  Holds-after_grow n extra next room short stores =
      rw
        (exact memory raw n h.well fits
          ∙ grow_room memory raw n h.well fits (
              (ltb_iff (raw.len + n) raw.allocated).1
                (omega (arith, h.length_held, h.allocated_size))))
        (Holds-IsAppended size raw (next raw) text extra h (omega arith) (
          stores (omega (arith, h.length_held, h.allocated_size, h.well.size))
            (omega (arith, h.allocated_size, h.well.size))))
    where
      fits : raw.len + n + 127 < 2 ^ 63
      fits = omega (arith, h.length_held, room, small)

  pub Holds-raw_add :
      (bytes : List ℕ) (n : ℕ)
      → length text + n < size
      → length bytes ≡ n
      → Holds size (raw_add memory raw bytes n).1 (text ++ bytes)
  unfolding raw_add
  Holds-raw_add bytes n room all = Holds-after_grow n bytes _ room (omega arith) (λ inside below.
      subst
        (λ t.
          IsAppended raw
            (record raw { buf = memory.byte_copy raw.buf raw.len bytes n; len = u64 (raw.len + n) })
            t)
        (take_all n bytes (omega arith))
        (IsAppended-copy memory raw bytes n (omega arith) inside below))

  pub Holds-raw_add_hex :
      (bytes : List ℕ) (n : ℕ)
      → length text + n * 2 < size
      → length bytes ≡ n
      → Holds size (raw_add_hex memory raw bytes n).1 (text ++ hex memory.bhex bytes)
  unfolding raw_add_hex
  Holds-raw_add_hex bytes n room all =
      subst
        (λ t.
          Holds size (after_grow memory (raw_grow_add memory raw t) (put_hex memory n bytes 0)).1
            (text ++ hex memory.bhex bytes))
        {x = n * 2} {y = u64 (n * 2)} (omega (arith, room, small))
        (Holds-after_grow (n * 2) (hex memory.bhex bytes) (put_hex memory n bytes 0) room
          (omega (arith, length-hex memory.bhex bytes))
          (λ inside below.
            subst (λ t. IsAppended raw (put_hex memory n bytes 0 raw) (hex memory.bhex t))
              (values-get_or n 0 bytes (omega arith) ∙ take_all n bytes (omega arith))
              (put_hex-IsAppended memory n 0 bytes raw inside below)))

  pub Holds-raw_add_xuint :
      (room_left : ℕ) (digits : List ℕ)
      → length text + suc room_left < size
      → room_left ≤ length digits
      → Holds size
          (raw_add_xuint memory (suc room_left) raw digits).1
          (text ++ (take room_left digits ++ (0 ∷ [])))
  unfolding raw_add_xuint
  Holds-raw_add_xuint room_left digits room long =
      Holds-after_grow (suc room_left) (take room_left digits ++ (0 ∷ []))
        (printed memory room_left digits long) room
        (omega (
          arith,
          length-append (take room_left digits) (0 ∷ []),
          length-take room_left digits long,
        ))
        (IsAppended-printed memory room_left digits long raw)

  pub Holds-raw_addf :
      (n : ℕ) (words : List ℕ)
      → length text + (n + 1) < size
      → n ≤ length words
      → Holds size (raw_addf memory raw n words).1 (text ++ take n words)
  unfolding raw_addf
  Holds-raw_addf n words room long =
      subst
        (λ t.
          Holds size
            (after_grow memory (raw_grow_add memory raw t) (λ r. record r {
              buf = print r.buf r.len (u64 (n + 1)) words;
              len = u64 (r.len + n);
            })).1
            (text ++ take n words))
        {x = n + 1} {y = u64 (n + 1)} (omega (arith, room, small))
        (Holds-after_grow (n + 1) (take n words) _ room (omega (arith, length-take n words long))
          (IsAppended-field n words long raw))
