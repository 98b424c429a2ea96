-- ===== src/Raw.antt =====
-- src/dmr/raw.c: growing byte buffers. The checks for NULL are left out.
pub mod Copy
pub mod Fresh
pub mod Sample
pub mod Room
mod Tests
pub mod Printed
pub mod Digits
pub mod Append
pub mod Contents
use dmrlib.Common.{
  ℕ, zero, suc, ◌+◌, ◌-◌, ◌*◌, ◌/◌, ◌%◌, ◌^◌, ◌<◌, min, ◌≡◌, Bool, Option, none, some, List, [],
  ◌∷◌, length, get_or, set, take, fill, replicate, ltb, if◌then◌else◌, bit_and, bit_or, u8, ◌<<<◌,
  ◌>>>◌,
}
use dmrlib.Error.{Status, done, out_of_memory, last_error}

-- `dmr_raw`, without its links in a queue.
pub record Raw : Type 0 where
  pub buf : List ℕ
  pub allocated : ℕ
  pub len : ℕ

-- What the buffers use of talloc, of common/byte.h and of the printing functions of C:
-- `talloc_realloc` keeps the bytes that both sizes have, `byte_copy` and `byte_zero` store a run of
-- bytes, `bhex` is the table of the hexadecimal digits.
pub record Memory : Type 0 where
  pub realloc : List ℕ → ℕ → Option (List ℕ)
  pub byte_copy : List ℕ → ℕ → List ℕ → ℕ → List ℕ
  pub byte_zero : List ℕ → ℕ → ℕ → List ℕ
  pub bhex : ℕ → ℕ
  pub length-realloc : (buf new : List ℕ) (n : ℕ) → realloc buf n ≡ some new → length new ≡ n
  pub get_or-realloc :
      (buf new : List ℕ) (n i : ℕ)
      → realloc buf n ≡ some new
      → i < n
      → i < length buf
      → get_or new i 0 ≡ get_or buf i 0
  pub byte_copy_fill :
      (dst : List ℕ) (o : ℕ) (src : List ℕ) (n : ℕ)
      → byte_copy dst o src n ≡ fill n 0 (λ i. o + i) (λ i. get_or src i 0) dst
  pub byte_zero_fill :
      (dst : List ℕ) (o n : ℕ) → byte_zero dst o n ≡ fill n 0 (λ i. o + i) (λ _. 0) dst

-- Sizes are of 64 bits.
abbrev pub u64 : ℕ → ℕ
u64 n = n % 2 ^ 64

-- `(len + 127) & -128`.
unfoldable pub round_up : ℕ → ℕ
round_up n = bit_and (u64 (n + 127)) 0xffffffffffffff80

unfoldable pub swap_uint32 : ℕ → ℕ
swap_uint32 v =
    bit_or
      (bit_or (bit_or ((v <<< 24) % 2 ^ 32) (bit_and ((v <<< 8) % 2 ^ 32) 0x00ff0000))
        (bit_and (v >>> 8) 0x0000ff00))
      (v >>> 24)

-- `header` and `given` are whether talloc gives the zeroed memory of the struct and of the array.
unfoldable pub raw_new : Bool → Bool → ℕ → Option Raw
raw_new header given n =
    if header
    then (if given
        then some (record { buf = replicate (round_up n) 0; allocated = round_up n; len = 0 })
        else none)
    else none

-- `raw->buf[raw->len++] = b`.
unfoldable pub put : Raw → ℕ → Raw
put raw b = record raw { buf = set raw.buf raw.len b; len = u64 (raw.len + 1) }

-- The loop that stores the low bytes first.
unfoldable pub put_uint : ℕ → ℕ → Raw → Raw
put_uint zero v raw = raw
put_uint (suc size) v raw = put_uint size (v >>> 8) (put raw (bit_and v 0xff))

unfoldable pub raw_size : Raw → ℕ
raw_size raw = raw.len

-- `vsnprintf(dst, size, ...)`, with what the format gives for the arguments as `text`; the
-- text is cut off for its NUL byte.
unfoldable pub print : List ℕ → ℕ → ℕ → List ℕ → List ℕ
print buf o zero text = buf
print buf o (suc room) text =
    let n = min room (length text) in
    set (fill n 0 (λ i. o + i) (λ i. get_or text i 0) buf) (o + n) 0

module _ (memory : Memory) where
  open memory use {realloc, byte_copy, byte_zero, bhex}

  unfoldable pub regrow : Raw → ℕ → Option (List ℕ) → Status × Raw
  regrow raw n none = (out_of_memory, raw)
  regrow raw n (some tmp) = (
    done,
    record raw { buf = byte_zero tmp raw.len (u64 (n + (2 ^ 64 - raw.len))); allocated = n },
  )

  unfoldable pub raw_grow : Raw → ℕ → Status × Raw
  raw_grow raw n =
      if ltb n raw.allocated
      then (done, raw)
      else regrow raw (round_up n) (realloc raw.buf (round_up n))

  unfoldable pub raw_grow_add : Raw → ℕ → Status × Raw
  raw_grow_add raw n = raw_grow raw (u64 (raw.len + n))

  -- `if (dmr_raw_grow_add(...) != 0) return dmr_error(DMR_LASTERROR);`, then `next`.
  unfoldable pub after_grow : Status × Raw → (Raw → Raw) → Status × Raw
  after_grow (done, raw) next = (done, next raw)
  after_grow (_, raw) next = (last_error, raw)

  unfoldable pub raw_add : Raw → List ℕ → ℕ → Status × Raw
  raw_add raw bytes n =
      after_grow (raw_grow_add raw n)
        (λ r. record r { buf = byte_copy r.buf r.len bytes n; len = u64 (r.len + n) })

  unfoldable pub put_hex : ℕ → List ℕ → ℕ → Raw → Raw
  put_hex zero bytes i raw = raw
  put_hex (suc left) bytes i raw =
      put_hex left bytes (i + 1)
        (put (put raw (bhex (get_or bytes i 0 >>> 4))) (bhex (bit_and (get_or bytes i 0) 0x0f)))

  unfoldable pub raw_add_hex : Raw → List ℕ → ℕ → Status × Raw
  raw_add_hex raw bytes n = after_grow (raw_grow_add raw (u64 (n * 2))) (put_hex n bytes 0)

  unfoldable pub raw_add_uint8 : Raw → ℕ → Status × Raw
  raw_add_uint8 raw v = after_grow (raw_grow_add raw 1) (λ r. put r v)

  unfoldable pub raw_add_xuint8 : Raw → ℕ → Status × Raw
  raw_add_xuint8 raw v =
      after_grow (raw_grow_add raw 2) (λ r. put (put r (bhex (v >>> 4))) (bhex (bit_and v 0x0f)))

  -- The macro `AU`, for the sizes 2, 3, 4 and 8.
  unfoldable pub raw_add_uint : ℕ → Raw → ℕ → Status × Raw
  raw_add_uint size raw v = after_grow (raw_grow_add raw size) (put_uint size v)

  unfoldable pub raw_add_uint32_le : Raw → ℕ → Status × Raw
  raw_add_uint32_le raw v = raw_add_uint 4 raw (swap_uint32 v)

  -- The macro `AX`; `text` is what the format gives for the number.
  unfoldable pub raw_add_xuint : ℕ → Raw → List ℕ → Status × Raw
  raw_add_xuint size raw text = after_grow (raw_grow_add raw size) (λ r. record r {
    buf = print (byte_zero r.buf r.len size) r.len size text;
    len = u64 (r.len + size);
  })

  unfoldable pub raw_addf : Raw → ℕ → List ℕ → Status × Raw
  raw_addf raw n text =
      after_grow (raw_grow_add raw (u64 (n + 1)))
        (λ r. record r { buf = print r.buf r.len (u64 (n + 1)) text; len = u64 (r.len + n) })

  unfoldable pub raw_reset : Raw → Raw
  raw_reset raw = record raw { buf = byte_zero raw.buf 0 raw.allocated; len = 0 }

  unfoldable pub raw_zero : Raw → Raw
  raw_zero raw = record raw { buf = byte_zero raw.buf 0 raw.len }
