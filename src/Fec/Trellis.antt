-- ===== src/Fec/Trellis.antt =====
-- src/dmr/fec/trellis.c: the decoder of the rate 3/4 trellis code. The checks for NULL are left out.
pub mod Output
mod Tests
use dmrlib.Common.{
  ℕ, zero, suc, ◌+◌, ◌-◌, ◌*◌, Bool, true, false, ◌&&◌, Option, none, some, List, [], ◌∷◌, get_or,
  set, replicate, fill, ltb, ◌==◌, if◌then◌else◌, bit_and, drop,
}
use dmrlib.Bits.{bytes_to_bits_within, bits_to_bytes_within}

-- The values 1, -1, 3 and -3 of a dibit.
pub data Dibit : Type 0 where
  plus_one minus_one plus_three minus_three : Dibit

abbrev pub same_dibit : Dibit → Dibit → Bool
same_dibit plus_one plus_one = true
same_dibit minus_one minus_one = true
same_dibit plus_three plus_three = true
same_dibit minus_three minus_three = true
same_dibit _ _ = false

abbrev pub state_transition_table : List ℕ
state_transition_table =
    0 ∷ 8 ∷ 4 ∷ 12 ∷ 2 ∷ 10 ∷ 6 ∷ 14 ∷ 4 ∷ 12 ∷ 2 ∷ 10 ∷ 6 ∷ 14 ∷ 0 ∷ 8 ∷ 1 ∷ 9 ∷ 5 ∷ 13 ∷ 3 ∷ 11
    ∷ 7 ∷ 15 ∷ 5 ∷ 13 ∷ 3 ∷ 11 ∷ 7 ∷ 15 ∷ 1 ∷ 9 ∷ 3 ∷ 11 ∷ 7 ∷ 15 ∷ 1 ∷ 9 ∷ 5 ∷ 13 ∷ 7 ∷ 15 ∷ 1 ∷ 9
    ∷ 5 ∷ 13 ∷ 3 ∷ 11 ∷ 2 ∷ 10 ∷ 6 ∷ 14 ∷ 0 ∷ 8 ∷ 4 ∷ 12 ∷ 6 ∷ 14 ∷ 0 ∷ 8 ∷ 4 ∷ 12 ∷ 2 ∷ 10 ∷ []

abbrev pub constellation_point_mapping : List (Dibit × Dibit)
constellation_point_mapping =
    (plus_one, minus_one)
    ∷ (minus_one, minus_one)
    ∷ (plus_three, minus_three)
    ∷ (minus_three, minus_three)
    ∷ (minus_three, minus_one)
    ∷ (plus_three, minus_one)
    ∷ (minus_one, minus_three)
    ∷ (plus_one, minus_three)
    ∷ (minus_three, plus_three)
    ∷ (plus_three, plus_three)
    ∷ (minus_one, plus_one)
    ∷ (plus_one, plus_one)
    ∷ (plus_one, plus_three)
    ∷ (minus_one, plus_three)
    ∷ (plus_three, plus_one)
    ∷ (minus_three, plus_one)
    ∷ []

abbrev pub interleaving_schedule : List ℕ
interleaving_schedule =
    0x00 ∷ 0x01 ∷ 0x08 ∷ 0x09 ∷ 0x10 ∷ 0x11 ∷ 0x18 ∷ 0x19 ∷ 0x20 ∷ 0x21 ∷ 0x28 ∷ 0x29 ∷ 0x30 ∷ 0x31
    ∷ 0x38 ∷ 0x39 ∷ 0x40 ∷ 0x41 ∷ 0x48 ∷ 0x49 ∷ 0x50 ∷ 0x51 ∷ 0x58 ∷ 0x59 ∷ 0x60 ∷ 0x61 ∷ 0x02
    ∷ 0x03 ∷ 0x0a ∷ 0x0b ∷ 0x12 ∷ 0x13 ∷ 0x1a ∷ 0x1b ∷ 0x22 ∷ 0x23 ∷ 0x2a ∷ 0x2b ∷ 0x32 ∷ 0x33
    ∷ 0x3a ∷ 0x3b ∷ 0x42 ∷ 0x43 ∷ 0x4a ∷ 0x4b ∷ 0x52 ∷ 0x53 ∷ 0x5a ∷ 0x5b ∷ 0x04 ∷ 0x05 ∷ 0x0c
    ∷ 0x0d ∷ 0x14 ∷ 0x15 ∷ 0x1c ∷ 0x1d ∷ 0x24 ∷ 0x25 ∷ 0x2c ∷ 0x2d ∷ 0x34 ∷ 0x35 ∷ 0x3c ∷ 0x3d
    ∷ 0x44 ∷ 0x45 ∷ 0x4c ∷ 0x4d ∷ 0x54 ∷ 0x55 ∷ 0x5c ∷ 0x5d ∷ 0x06 ∷ 0x07 ∷ 0x0e ∷ 0x0f ∷ 0x16
    ∷ 0x17 ∷ 0x1e ∷ 0x1f ∷ 0x26 ∷ 0x27 ∷ 0x2e ∷ 0x2f ∷ 0x36 ∷ 0x37 ∷ 0x3e ∷ 0x3f ∷ 0x46 ∷ 0x47
    ∷ 0x4e ∷ 0x4f ∷ 0x56 ∷ 0x57 ∷ 0x5e ∷ 0x5f ∷ []

unfoldable pub dibit : Bool → Bool → Dibit
dibit true true = minus_three
dibit true false = minus_one
dibit false true = plus_three
dibit false false = plus_one

-- The loop over the pairs of the first 196 bits of the packet.
unfoldable pub dibits_of : List Bool → List Dibit → List Dibit
dibits_of bits out =
    fill 98 0 (λ o. o) (λ o. dibit (get_or bits (o * 2) false) (get_or bits (o * 2 + 1) false)) out

unfoldable pub deinterleave_dibits : List Dibit → List Dibit → List Dibit
deinterleave_dibits dibits out =
    fill 98 0 (λ i. get_or interleaving_schedule i 0) (λ i. get_or dibits i plus_one) out

-- The first point of the constellation that fits, or `old` if none does.
unfoldable pub point_from : List (Dibit × Dibit) → ℕ → Dibit → Dibit → ℕ → ℕ
point_from [] j a b old = old
point_from (point ∷ rest) j a b old =
    let later = point_from rest (j + 1) a b old in
    if same_dibit a point.0 && same_dibit b point.1 then j else later

unfoldable pub points_of : List Dibit → List ℕ → List ℕ
points_of dibits out =
    fill 49 0 (λ o. o)
      (λ o.
        point_from constellation_point_mapping 0 (get_or dibits (o * 2) plus_one)
          (get_or dibits (o * 2 + 1) plus_one) (get_or out o 0))
      out

-- The place of a point in the row of the table that begins at `start`, from `j` on.
unfoldable pub match_from : ℕ → ℕ → ℕ → ℕ → Option ℕ
match_from zero start j point = none
match_from (suc left) start j point =
    let rest = match_from left start (j + 1) point in
    if point == get_or state_transition_table (start + j) 0 then some j else rest

-- What one round keeps: the state and the tribits so far, the last one first; none when a point has
-- not matched.
unfoldable pub next_tribit : Option ℕ → List ℕ → Option (ℕ × List ℕ)
next_tribit none tribits = none
next_tribit (some last) tribits = some (last, last ∷ tribits)

unfoldable pub tribit_round : List ℕ → ℕ → Option (ℕ × List ℕ) → Option (ℕ × List ℕ)
tribit_round points i none = none
tribit_round points i (some (last, tribits)) =
    next_tribit (match_from 8 (last * 8) 0 (get_or points i 0)) tribits

-- `left` rounds of the state machine from point `i`.
unfoldable pub tribits_from : ℕ → ℕ → List ℕ → Option (ℕ × List ℕ) → Option (ℕ × List ℕ)
tribits_from zero i points state = state
tribits_from (suc left) i points state =
    tribits_from left (i + 1) points (tribit_round points i state)

-- One tribit goes to three places of `bits`, of which only the ones are written; `tribits` has the
-- last one first.
unfoldable pub put_bit : Bool → ℕ → List Bool → List Bool
put_bit one i bits = if one then set bits i true else bits

unfoldable pub put_tribits : ℕ → ℕ → List ℕ → List Bool → List Bool
put_tribits zero o tribits bits = bits
put_tribits (suc left) o tribits bits =
    let t = get_or tribits (47 - o) 0 in
    let first = put_bit (ltb 0 (bit_and t 0x04)) (o * 3) bits in
    let second = put_bit (ltb 0 (bit_and t 0x02)) (o * 3 + 1) first in
    put_tribits left (o + 1) tribits (put_bit (ltb 0 (bit_and t 0x01)) (o * 3 + 2) second)

-- The arrays on the stack, which are not cleared: `bits`, `info`, the dibits, those in order, and
-- the points.
pub record Stack : Type 0 where
  pub bits : List Bool
  pub info : List Bool
  pub dibits : List Dibit
  pub deinterleaved : List Dibit
  pub points : List ℕ

-- The bits with the tribits, and `info` cleared, of which the latter goes into the bytes.
unfoldable pub map_back :
    List Bool → List Bool → List ℕ → Option (ℕ × List ℕ) → Option (List Bool × List ℕ)
map_back bits info bytes none = none
map_back bits info bytes (some (last, tribits)) =
    let cleared = fill 196 0 (λ i. i) (λ _. false) info in
    some (put_tribits 48 0 tribits bits, bits_to_bytes_within cleared 144 bytes 18)

-- The bits and the bytes when the call ends with 0.
unfoldable pub trellis_rate_34_decode : Stack → List ℕ → List ℕ → Option (List Bool × List ℕ)
trellis_rate_34_decode stack packet bytes =
    let bits = bytes_to_bits_within packet 33 stack.bits 264 in
    let low = fill 98 0 (λ i. i) (λ i. get_or bits i false) stack.info in
    let info = fill 98 0 (λ i. 98 + i) (λ i. get_or bits (166 + i) false) low in
    let dibits = dibits_of bits stack.dibits in
    let points = points_of (deinterleave_dibits dibits stack.deinterleaved) stack.points in
    map_back bits info bytes (tribits_from 48 0 points (some (0, [])))
