-- ===== src/Raw/Digits.antt =====
-- src/dmr/raw.c: hexadecimal appends, and the byte orders of the appended numbers.
use dmrlib.Common.{
  ℕ, zero, suc, ◌+◌, ◌-◌, ◌*◌, ◌/◌, ◌%◌, ◌^◌, ◌<◌, ◌≤◌, ◌≡◌, refl, ap, ap₂, subst, ◌∙◌, arith, List,
  [], ◌∷◌, ◌++◌, length, get_or, bit_and, bit_or, drop, take, ◌⊎◌, inl, inr,
}
use dmrlib.Common.Bytes.{values, values-get_or, length-take}
use native.Mathlib.Nat.{pow-suc}
use dmrlib.Common.Fields.{and_low, and_shift, or_fields}
use dmrlib.Error.{done, last_error}
use dmrlib.Raw.{
  Memory, Raw, u64, put, put_hex, swap_uint32, raw_add_hex, raw_add_uint32_le, raw_add_uint,
  after_grow, raw_grow_add,
}
use dmrlib.Raw.Contents.{
  IsRaw, IsAppended, IsAppended-put, IsAppended-refl, IsAppended-trans, contents, Refused,
}
use dmrlib.Raw.Append.{little_endian, hex, Appends, after_grow-Appends, raw_add_uint-Appends}

-- The number that bytes stand for, the low one first.
unfoldable pub value : List ℕ → ℕ
value [] = 0
value (b ∷ bytes) = b + 256 * value bytes

pub value-little_endian : (size v : ℕ) → v < 256 ^ size → value (little_endian size v) ≡ v
unfolding value little_endian
value-little_endian zero v h = omega arith
value-little_endian (suc size) v h = omega (
  arith,
  ap (λ (t : ℕ). 256 * t) (value-little_endian size (v / 256) (omega (arith, pow-suc 256 size))),
  pow-suc 256 size,
)

masked : (k m v : ℕ) → bit_and v ((2 ^ m - 1) * 2 ^ k) ≡ v / 2 ^ k % 2 ^ m * 2 ^ k
masked k m v = and_shift k v (2 ^ m - 1) ∙ ap (λ (t : ℕ). t * 2 ^ k) (and_low m (v / 2 ^ k))

join :
    (a b c d : ℕ)
    → b < 256
    → c < 256
    → d < 256
    → bit_or (bit_or (bit_or (a * 2 ^ 24) (b * 2 ^ 16)) (c * 2 ^ 8)) d
      ≡ a * 2 ^ 24 + b * 2 ^ 16 + c * 2 ^ 8 + d
join a b c d p q r =
    ap (λ (t : ℕ). bit_or (bit_or t (c * 2 ^ 8)) d)
      (or_fields 24 a (b * 2 ^ 16) (omega arith)
        ∙ over 16 (a * 2 ^ 24 + b * 2 ^ 16) (a * 256 + b) (omega arith))
    ∙ ap (λ (t : ℕ). bit_or t d)
        (or_fields 16 (a * 256 + b) (c * 2 ^ 8) (omega arith)
          ∙ over 8 ((a * 256 + b) * 2 ^ 16 + c * 2 ^ 8) ((a * 256 + b) * 256 + c) (omega arith))
    ∙ or_fields 8 ((a * 256 + b) * 256 + c) d (omega arith)
    ∙ omega arith
  where
    over : (k x y : ℕ) → x ≡ y * 2 ^ k → x ≡ y * 2 ^ k
    over k x y h = h

-- The bytes of a word of 32 bits change places from end to end.
swap_uint32_bytes :
    (v : ℕ)
    → v < 2 ^ 32
    → swap_uint32 v
      ≡ v % 256 * 2 ^ 24 + v / 2 ^ 8 % 256 * 2 ^ 16 + v / 2 ^ 16 % 256 * 2 ^ 8 + v / 2 ^ 24
unfolding swap_uint32
swap_uint32_bytes v h =
    ap₂ (λ (x y : ℕ). bit_or (bit_or (bit_or x y) (bit_and (v / 2 ^ 8) 0xff00)) (v / 2 ^ 24))
      {x = v * 2 ^ 24 % 2 ^ 32} {y = v % 256 * 2 ^ 24} (omega arith) (second v)
    ∙ ap
        (λ (t : ℕ).
          bit_or (bit_or (bit_or (v % 256 * 2 ^ 24) (v / 2 ^ 8 % 256 * 2 ^ 16)) t) (v / 2 ^ 24))
        (third v)
    ∙ join (v % 256) (v / 2 ^ 8 % 256) (v / 2 ^ 16 % 256) (v / 2 ^ 24) (omega arith) (omega arith)
        (omega arith)
  where
    second : (v : ℕ) → bit_and (v * 2 ^ 8 % 2 ^ 32) 0xff0000 ≡ v / 2 ^ 8 % 256 * 2 ^ 16
    second v = omega (arith, masked 16 8 (v * 2 ^ 8 % 2 ^ 32))

    third : (v : ℕ) → bit_and (v / 2 ^ 8) 0xff00 ≡ v / 2 ^ 16 % 256 * 2 ^ 8
    third v = omega (arith, masked 8 8 (v / 2 ^ 8))

drop-take : (n : ℕ) (xs ys : List ℕ) → n ≤ length xs → drop n (take n xs ++ ys) ≡ ys
drop-take zero xs ys h = refl
drop-take (suc n) [] ys h = absurd (omega arith)
drop-take (suc n) (x ∷ xs) ys h = drop-take n xs ys (omega arith)

drop-contents : (raw : Raw) → IsRaw raw → (ys : List ℕ) → drop raw.len (contents raw ++ ys) ≡ ys
unfolding contents
drop-contents raw good ys = drop-take raw.len raw.buf ys (omega (arith, good.size, good.within))

big_endian-swap :
    (v : ℕ)
    → v < 2 ^ 32
    → little_endian 4 (swap_uint32 v)
      ≡ v / 2 ^ 24 ∷ v / 2 ^ 16 % 256 ∷ v / 2 ^ 8 % 256 ∷ v % 256 ∷ []
unfolding little_endian
big_endian-swap v h = ap₂ ◌∷◌ (omega (arith, swap_uint32_bytes v h)) (
    ap₂ ◌∷◌ (omega (arith, swap_uint32_bytes v h)) (
      ap₂ ◌∷◌ (omega (arith, swap_uint32_bytes v h))
        (ap (λ (t : ℕ). t ∷ []) (omega (arith, swap_uint32_bytes v h)))))

-- The append of a number of 32 bits that is called little endian, to a well-formed buffer whose size
-- stays below 2 ^ 63 - 127, is done and appends the four bytes with the high one first, or memory is
-- refused and the buffer is unchanged.
pub raw_add_uint32_le-Appends :
    (memory : Memory) (raw : Raw) (v : ℕ)
    → IsRaw raw
    → raw.len + 4 + 127 < 2 ^ 63
    → v < 2 ^ 32
    → Appends memory raw 4
        (v / 2 ^ 24 ∷ v / 2 ^ 16 % 256 ∷ v / 2 ^ 8 % 256 ∷ v % 256 ∷ [])
        (raw_add_uint32_le memory raw v)
unfolding raw_add_uint32_le
raw_add_uint32_le-Appends memory raw v good fits small =
    subst (λ t. Appends memory raw 4 t (raw_add_uint32_le memory raw v)) (big_endian-swap v small)
      (raw_add_uint-Appends memory raw 4 (swap_uint32 v) good fits)

-- A number below 256 ^ `size` that is appended to a well-formed buffer whose size stays below
-- 2 ^ 63 - 127 is read back, the low byte first, from what follows the contents before, or memory is
-- refused, which is the last error, and the buffer is unchanged.
pub value-raw_add_uint :
    (memory : Memory) (raw : Raw) (size v : ℕ)
    → IsRaw raw
    → raw.len + size + 127 < 2 ^ 63
    → v < 256 ^ size
    → ((r : Raw) × (raw_add_uint memory size raw v ≡ (done, r))
        × IsRaw r
        × (value (drop raw.len (contents r)) ≡ v))
      ⊎ ((raw_add_uint memory size raw v ≡ (last_error, raw)) × Refused memory raw size)
unfolding Appends
value-raw_add_uint memory raw size v good fits small =
    elim (raw_add_uint-Appends memory raw size v good fits) [
      | inl (r, e, well, held) ↦ inl (
        r,
        e,
        well,
        ap (λ t. value (drop raw.len t)) held
            ∙ ap value (drop-contents raw good (little_endian size v))
            ∙ value-little_endian size v small,
      )
      | inr refused ↦ inr refused
    ]

-- Two stores.
IsAppended-put_two :
    (r : Raw) (a b : ℕ)
    → r.len + 2 ≤ length r.buf
    → length r.buf < 2 ^ 63
    → IsAppended r (put (put r a) b) (a ∷ b ∷ [])
IsAppended-put_two r a b room small =
    let first = IsAppended-put r a (omega arith) small in
    IsAppended-trans r (put r a) (put (put r a) b) (a ∷ []) (b ∷ []) first (
      IsAppended-put (put r a) b (omega (arith, first.longer, first.same_length))
        (omega (arith, first.same_length)))

pub put_hex-IsAppended :
    (memory : Memory) (n i : ℕ) (bytes : List ℕ) (r : Raw)
    → r.len + n * 2 ≤ length r.buf
    → length r.buf < 2 ^ 63
    → IsAppended r
        (put_hex memory n bytes i r)
        (hex memory.bhex (values n i (λ j. get_or bytes j 0)))
unfolding put_hex hex values
put_hex-IsAppended memory zero i bytes r room small = IsAppended-refl r
put_hex-IsAppended memory (suc n) i bytes r room small =
    let low = memory.bhex (bit_and (get_or bytes i 0) 0x0f) in
    let high = memory.bhex (get_or bytes i 0 / 16) in
    let two = IsAppended-put_two r high low (omega arith) small in
    subst
      (λ t.
        IsAppended r (put_hex memory n bytes (i + 1) (put (put r high) low))
          (high ∷ memory.bhex t ∷ hex memory.bhex (values n (i + 1) (λ j. get_or bytes j 0))))
      (and_low 4 (get_or bytes i 0))
      (IsAppended-trans r (put (put r high) low)
        (put_hex memory n bytes (i + 1) (put (put r high) low)) (high ∷ low ∷ [])
        (hex memory.bhex (values n (i + 1) (λ j. get_or bytes j 0))) two
        (put_hex-IsAppended memory n (i + 1) bytes (put (put r high) low)
          (omega (arith, two.longer, two.same_length)) (omega (arith, two.same_length))))

pub length-hex : (digits : ℕ → ℕ) (bytes : List ℕ) → length (hex digits bytes) ≡ length bytes * 2
unfolding hex
length-hex digits [] = refl
length-hex digits (b ∷ bytes) = omega (arith, length-hex digits bytes)

-- Appending `n` of at least `n` bytes in hexadecimal to a well-formed buffer whose size stays below
-- 2 ^ 63 - 127 is done and appends two digits for each byte, the high one first, or memory is
-- refused and the buffer is unchanged.
pub raw_add_hex-Appends :
    (memory : Memory) (raw : Raw) (bytes : List ℕ) (n : ℕ)
    → IsRaw raw
    → raw.len + n * 2 + 127 < 2 ^ 63
    → n ≤ length bytes
    → Appends memory raw (n * 2) (hex memory.bhex (take n bytes)) (raw_add_hex memory raw bytes n)
unfolding raw_add_hex
raw_add_hex-Appends memory raw bytes n good fits enough =
    subst
      (λ t.
        Appends memory raw (n * 2) (hex memory.bhex (take n bytes))
          (after_grow memory (raw_grow_add memory raw t) (put_hex memory n bytes 0)))
      {x = n * 2} {y = u64 (n * 2)} (omega arith)
      (after_grow-Appends memory raw (n * 2) good fits (hex memory.bhex (take n bytes))
        (put_hex memory n bytes 0)
        (omega (arith, length-hex memory.bhex (take n bytes), length-take n bytes enough))
        (λ r room small.
          subst (λ t. IsAppended r (put_hex memory n bytes 0 r) (hex memory.bhex t))
            (values-get_or n 0 bytes enough) (put_hex-IsAppended memory n 0 bytes r room small)))
