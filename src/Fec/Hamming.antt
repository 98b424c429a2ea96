-- ===== src/Fec/Hamming.antt =====
-- src/dmr/fec/hamming.c: five shortened Hamming codes over arrays of booleans.
pub mod Accept
pub mod Distance
mod Tests
use dmrlib.Common.{ℕ, zero, suc, ◌+◌, ◌-◌, ◌^◌, Bool, true, false, not, List, [], ◌∷◌}
use dmrlib.Common.{◌==◌, ltb, if◌then◌else◌, ◌⊕◌, same, get_or, length, fill, bit_and, bit_or}

-- `hamming_t`; nothing reads its field `p`.
pub record Hamming : Type 0 where
  pub n : ℕ
  pub k : ℕ
  pub d : ℕ
  pub g : List ℕ

-- The codes that the macro `HAMMING_CODE` makes an encoder and a decoder for.
pub data Code : Type 0 where
  hamming_7_4_3 hamming_13_9_3 hamming_15_11_3 hamming_16_11_4 hamming_17_12_3 : Code

unfoldable pub table : Code → Hamming
table hamming_7_4_3 = record {
  n = 7;
  k = 4;
  d = 3;
  g = 0x05 ∷ 0x07 ∷ 0x06 ∷ 0x03 ∷ 0x04 ∷ 0x02 ∷ 0x01 ∷ [];
}
table hamming_13_9_3 = record {
  n = 13;
  k = 9;
  d = 3;
  g = 0x0f ∷ 0x0e ∷ 0x07 ∷ 0x0a ∷ 0x05 ∷ 0x0b ∷ 0x0c ∷ 0x06 ∷ 0x03 ∷ 0x08 ∷ 0x04 ∷ 0x02 ∷ 0x01 ∷ [];
}
table hamming_15_11_3 = record {
  n = 15;
  k = 11;
  d = 3;
  g =
      0x09 ∷ 0x0d ∷ 0x0f ∷ 0x0e ∷ 0x07 ∷ 0x0a ∷ 0x05 ∷ 0x0b ∷ 0x0c ∷ 0x06 ∷ 0x03 ∷ 0x08 ∷ 0x04
      ∷ 0x02 ∷ 0x01 ∷ [];
}
table hamming_16_11_4 = record {
  n = 16;
  k = 11;
  d = 4;
  g =
      0x13 ∷ 0x1a ∷ 0x1f ∷ 0x1c ∷ 0x0e ∷ 0x15 ∷ 0x0b ∷ 0x16 ∷ 0x19 ∷ 0x0d ∷ 0x07 ∷ 0x10 ∷ 0x08
      ∷ 0x04 ∷ 0x02 ∷ 0x01 ∷ [];
}
table hamming_17_12_3 = record {
  n = 17;
  k = 12;
  d = 3;
  g =
      0x1b ∷ 0x1f ∷ 0x1d ∷ 0x1c ∷ 0x0e ∷ 0x07 ∷ 0x11 ∷ 0x1a ∷ 0x0d ∷ 0x14 ∷ 0x0a ∷ 0x05 ∷ 0x10
      ∷ 0x08 ∷ 0x04 ∷ 0x02 ∷ 0x01 ∷ [];
}

module _ (h : Hamming) where
  -- The inner loop of `hamming_parity` for `p[x]`, from `y` on with `left` rounds to go.
  unfoldable pub parity_from : List Bool → ℕ → ℕ → ℕ → Bool → Bool
  parity_from bits x zero y p = p
  parity_from bits x (suc left) y p = parity_from bits x left (y + 1) (
      if bit_and (get_or h.g y 0) (2 ^ (h.n - h.k - x - 1)) == 0
      then p
      else p ⊕ get_or bits y false)

  unfoldable pub parity : List Bool → ℕ → Bool
  unfolding parity_from
  parity bits x = parity_from bits x h.k 0 false

  -- The parities are stored from index `o` of `p` on. Where `p` is `bits + k` itself, the loop
  -- reads below index `k` only.
  unfoldable pub hamming_parity : List Bool → List Bool → ℕ → List Bool
  unfolding fill parity
  hamming_parity bits p o = fill (h.n - h.k) 0 (λ x. o + x) (λ x. parity bits x) p

  -- One scan behind the label `check_again`, from `i` on.
  unfoldable pub scan_from : List Bool → List Bool → ℕ → ℕ → ℕ → ℕ
  scan_from bits p zero i pos = pos
  scan_from bits p (suc left) i pos =
      scan_from bits p left (i + 1)
        (if same (get_or bits (i + h.k) false) (get_or p i false) then pos else bit_or pos (2 ^ i))

  -- `beyond i` is what a read of `g[i]` gives past the end of the table.
  module _ (beyond : ℕ → ℕ) where
    unfoldable pub read_g : ℕ → ℕ
    read_g i = if ltb i (length h.g) then get_or h.g i 0 else beyond i

    -- The attempts behind `check_again`, of which `h.d` are made.
    unfoldable pub check_from : List Bool → List Bool → ℕ → ℕ → Bool
    unfolding scan_from read_g
    check_from bits p zero pos = false
    check_from bits p (suc left) pos =
        let found = scan_from bits p (h.n - h.k) 0 pos in
        let again = check_from bits p left (read_g (found - 1)) in
        if found == 0 then true else again

    -- `p` is the array of parities, as it is left uninitialised before it is filled.
    unfoldable pub hamming_parity_check : List Bool → List Bool → Bool
    unfolding check_from hamming_parity
    hamming_parity_check bits p = check_from bits (hamming_parity bits p 0) h.d 0

unfoldable pub hamming_encode : Code → List Bool → List Bool
hamming_encode c bits = hamming_parity (table c) bits bits (table c).k

unfoldable pub hamming_decode : Code → (ℕ → ℕ) → List Bool → List Bool → Bool
hamming_decode c beyond p bits = hamming_parity_check (table c) beyond bits p
