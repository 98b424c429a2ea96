-- ===== src/Packet/SlotType.antt =====
-- The slot type that is written is read, in the packets where the Golay code makes up for the bits
-- that the decoder takes from the wrong places.
use dmrlib.Common.{ℕ, ◌+◌, ◌*◌, ◌/◌, ◌%◌, ◌≤◌, ◌<◌, ◌≡◌, ◌≢◌, refl, sym, ap, ap₂, ◌∙◌, arith}
use dmrlib.Common.{
  Bool, true, ◌&&◌, some, List, get_or, set, length, length-set, get_or-set_self, get_or-set_ne,
}
use dmrlib.Common.{ltb, bit_or, bit_xor, All, All-get_or}
use dmrlib.Common.{all_below, all_below-true}
use dmrlib.Common.Xor.{xor_comm, xor_cancel, xor-zero}
use dmrlib.Common.Weight.{weight}
use dmrlib.Bits.Convert.{IsByte}
use dmrlib.Fec.Golay.{encoder, golay_20_8_decode, golay_20_8_encode}
use dmrlib.Fec.Golay.Correct.{golay_20_8_decode_corrects}
use dmrlib.Packet.{first_byte, second_byte, third_byte, slot_12, slot_13, slot_19, slot_20}
use dmrlib.Packet.{write_slot_type}
use dmrlib.Packet.Fields.{slot_12_lem, slot_13_lem, slot_19_lem, slot_20_lem}
use dmrlib.Packet.Fields.{first_byte_lem, second_byte_lem, third_byte_lem}

-- The second byte that is read when `b1` was written over the two low bits `o` of the high half
-- of byte 19.
abbrev pub second_read : ℕ → ℕ → ℕ
second_read o b1 = bit_or (bit_or (b1 / 64 * 64) ((o * 4 + b1 / 16 % 4) * 16)) (b1 % 4)

-- At most three bits of a written word are read wrong.
few_wrong : ℕ → ℕ → Bool
few_wrong o d =
    let (b1, b2) = golay_20_8_encode d in
    let e1 = bit_xor b1 (second_read o b1) in
    let e2 = bit_xor b2 (b2 / 16 * 16) in
    ltb e1 256 && ltb e2 256 && ltb (weight 8 e1 + weight 8 e2) 4

few_wrong_table : all_below 3 (λ o. all_below 256 (few_wrong o)) ≡ true
unfolding all_below few_wrong weight golay_20_8_encode encoder
few_wrong_table = refl

xor_undo : (a b : ℕ) → bit_xor a (bit_xor a b) ≡ b
xor_undo a b = ap (bit_xor a) (xor_comm a b) ∙ xor_comm a (bit_xor b a) ∙ xor_cancel b a

-- A Boolean test of three parts, taken apart.
three_tests :
    (x y z : ℕ) → (ltb x 256 && ltb y 256 && ltb z 4) ≡ true → (x < 256) × (y < 256) × (z ≤ 3)
three_tests x y z h = ground arith

pub still_read :
    (o d : ℕ)
    → o < 3
    → d < 256
    → golay_20_8_decode d
        (second_read o (golay_20_8_encode d).0)
        ((golay_20_8_encode d).1 / 16 * 16)
      ≡ some d
unfolding few_wrong weight
still_read o d ho hd =
    let b1 = (golay_20_8_encode d).0 in
    let b2 = (golay_20_8_encode d).1 in
    let e1 = bit_xor b1 (second_read o b1) in
    let e2 = bit_xor b2 (b2 / 16 * 16) in
    let small : (e1 < 256) × (e2 < 256) × (weight 8 e1 + weight 8 e2 ≤ 3) =
      three_tests e1 e2 (weight 8 e1 + weight 8 e2) (
        all_below-true 256 (few_wrong o) d
          (all_below-true 3 (λ o. all_below 256 (few_wrong o)) o few_wrong_table ho) hd) in
    sym (
      ap (λ t. golay_20_8_decode t (bit_xor b1 e1) (bit_xor b2 e2)) (xor-zero d)
      ∙ ap (λ t. golay_20_8_decode d t (bit_xor b2 e2)) (xor_undo b1 (second_read o b1))
      ∙ ap (golay_20_8_decode d (second_read o b1)) (xor_undo b2 (b2 / 16 * 16)))
    ∙ golay_20_8_decode_corrects d 0 e1 e2 hd (omega arith) small.0 small.1 (omega (arith, small.2))

-- The bytes of a packet that the encoder has written.
module _ (packet : List ℕ) (b0 b1 b2 : ℕ) (room : 21 ≤ length packet) where
  abbrev v12 : ℕ
  v12 = slot_12 (get_or packet 12 0) b0

  abbrev after12 : List ℕ
  after12 = set packet 12 v12

  abbrev v13 : ℕ
  v13 = slot_13 (get_or after12 13 0) b0 b1

  abbrev after13 : List ℕ
  after13 = set after12 13 v13

  abbrev v19 : ℕ
  v19 = slot_19 (get_or after13 19 0) b1

  abbrev after19 : List ℕ
  after19 = set after13 19 v19

  abbrev v20 : ℕ
  v20 = slot_20 (get_or after19 20 0) b1 b2

  -- A byte that is not one of the four, as each of the four assignments leaves it.
  kept_12 : (k : ℕ) → k ≢ 12 → get_or after12 k 0 ≡ get_or packet k 0
  kept_12 k n = get_or-set_ne packet 12 k v12 0 (λ q. n (sym q))

  kept_13 : (k : ℕ) → k ≢ 13 → get_or after13 k 0 ≡ get_or after12 k 0
  kept_13 k n = get_or-set_ne after12 13 k v13 0 (λ q. n (sym q))

  kept_19 : (k : ℕ) → k ≢ 19 → get_or after19 k 0 ≡ get_or after13 k 0
  kept_19 k n = get_or-set_ne after13 19 k v19 0 (λ q. n (sym q))

  kept_20 : (k : ℕ) → k ≢ 20 → get_or (write_slot_type packet b0 b1 b2) k 0 ≡ get_or after19 k 0
  unfolding write_slot_type
  kept_20 k n = get_or-set_ne after19 20 k v20 0 (λ q. n (sym q))

  pub write_slot_type_out :
      (k : ℕ)
      → k ≢ 12
      → k ≢ 13
      → k ≢ 19
      → k ≢ 20
      → get_or (write_slot_type packet b0 b1 b2) k 0 ≡ get_or packet k 0
  write_slot_type_out k n12 n13 n19 n20 =
      kept_20 k n20 ∙ kept_19 k n19 ∙ kept_13 k n13 ∙ kept_12 k n12

  pub length-write_slot_type : length (write_slot_type packet b0 b1 b2) ≡ length packet
  unfolding write_slot_type
  length-write_slot_type =
      length-set after19 20 v20
      ∙ length-set after13 19 v19
      ∙ length-set after12 13 v13
      ∙ length-set packet 12 v12

  at-write_slot_type_12 :
      get_or (write_slot_type packet b0 b1 b2) 12 0 ≡ slot_12 (get_or packet 12 0) b0
  at-write_slot_type_12 =
      kept_20 12 (λ q. omega arith)
      ∙ kept_19 12 (λ q. omega arith)
      ∙ kept_13 12 (λ q. omega arith)
      ∙ get_or-set_self packet 12 v12 0 (omega arith)

  at-write_slot_type_13 :
      get_or (write_slot_type packet b0 b1 b2) 13 0 ≡ slot_13 (get_or packet 13 0) b0 b1
  at-write_slot_type_13 =
      kept_20 13 (λ q. omega arith)
      ∙ kept_19 13 (λ q. omega arith)
      ∙ get_or-set_self after12 13 v13 0 (omega (arith, length-set packet 12 v12))
      ∙ ap (λ t. slot_13 t b0 b1) (kept_12 13 (λ q. omega arith))

  at-write_slot_type_19 :
      get_or (write_slot_type packet b0 b1 b2) 19 0 ≡ slot_19 (get_or packet 19 0) b1
  at-write_slot_type_19 =
      kept_20 19 (λ q. omega arith)
      ∙ get_or-set_self after13 19 v19 0
          (omega (arith, length-set after12 13 v13, length-set packet 12 v12))
      ∙ ap (λ t. slot_19 t b1) (kept_13 19 (λ q. omega arith) ∙ kept_12 19 (λ q. omega arith))

  at-write_slot_type_20 :
      get_or (write_slot_type packet b0 b1 b2) 20 0 ≡ slot_20 (get_or packet 20 0) b1 b2
  unfolding write_slot_type
  at-write_slot_type_20 =
      get_or-set_self after19 20 v20 0 (
        omega
          (arith, length-set after13 19 v19, length-set after12 13 v13, length-set packet 12 v12))
      ∙ ap (λ t. slot_20 t b1 b2)
          (kept_19 20 (λ q. omega arith)
            ∙ kept_13 20 (λ q. omega arith)
            ∙ kept_12 20 (λ q. omega arith))

  module _ (all : All IsByte packet) (h0 : b0 < 256) (h1 : b1 < 256) (h2 : b2 < 256) where
    abbrev sent : List ℕ
    sent = write_slot_type packet b0 b1 b2

    byte-lt : (k : ℕ) → get_or packet k 0 < 256
    byte-lt k = All-get_or IsByte packet k 0 all (omega arith)

    at_12 : get_or sent 12 0 ≡ get_or packet 12 0 / 64 * 64 + b0 / 4
    at_12 = at-write_slot_type_12 ∙ slot_12_lem (get_or packet 12 0) b0 b1 b2 (byte-lt 12) h0 h1 h2

    pub at_13 : get_or sent 13 0 ≡ b0 % 4 * 64 + b1 / 64 * 16 + get_or packet 13 0 % 16
    at_13 = at-write_slot_type_13 ∙ slot_13_lem (get_or packet 13 0) b0 b1 b2 (byte-lt 13) h0 h1 h2

    pub at_19 : get_or sent 19 0 ≡ get_or packet 19 0 / 16 * 16 + b1 / 4 % 16
    at_19 = at-write_slot_type_19 ∙ slot_19_lem (get_or packet 19 0) b0 b1 b2 (byte-lt 19) h0 h1 h2

    at_20 : get_or sent 20 0 ≡ b1 % 4 * 64 + b2 / 16 * 4 + get_or packet 20 0 % 4
    at_20 = at-write_slot_type_20 ∙ slot_20_lem (get_or packet 20 0) b0 b1 b2 (byte-lt 20) h0 h1 h2

    pub read_first : first_byte (get_or sent 12 0) (get_or sent 13 0) ≡ b0
    read_first =
        first_byte_lem (get_or sent 12 0) (get_or sent 13 0) 0 (omega (arith, at_12, byte-lt 12))
          (omega (arith, at_13)) (omega arith)
        ∙ omega (arith, at_12, at_13)

    pub read_second :
        second_byte (get_or sent 13 0) (get_or sent 19 0) (get_or sent 20 0)
        ≡ second_read (get_or packet 19 0 / 16 % 4) b1
    read_second =
        second_byte_lem (get_or sent 13 0) (get_or sent 19 0) (get_or sent 20 0)
          (omega (arith, at_13)) (omega (arith, at_19, byte-lt 19)) (omega (arith, at_20))
        ∙ ap₂ bit_or (ap₂ bit_or (omega (arith, at_13)) (omega (arith, at_19)))
            (omega (arith, at_20))

    pub read_third : third_byte (get_or sent 20 0) ≡ b2 / 16 * 16
    read_third =
        third_byte_lem 0 0 (get_or sent 20 0) (omega arith) (omega arith) (omega (arith, at_20))
        ∙ omega (arith, at_20)
