-- ===== src/Packet/Fields.antt =====
-- The masks and shifts of the slot type as arithmetic, each checked over the values it can take.
use dmrlib.Common.{ℕ, ◌+◌, ◌*◌, ◌/◌, ◌%◌, ◌<◌, ◌≡◌, refl, ap₂, ◌∙◌, arith}
use dmrlib.Common.{true, ◌==◌, ==_iff, all_below, all_below-true, ◌<<<◌, ◌>>>◌, u8, bit_and, bit_or}
use dmrlib.Packet.{first_byte, second_byte, third_byte, slot_12, slot_13, slot_19, slot_20}

-- Two functions that agree on every byte by evaluation.
pub on_bytes :
    (f g : ℕ → ℕ) → all_below 256 (λ v. f v == g v) ≡ true → (v : ℕ) → v < 256 → f v ≡ g v
on_bytes f g table v h = (==_iff (f v) (g v)).0 (all_below-true 256 (λ v. f v == g v) v table h)

-- The same for two fields and for three.
pub on_two :
    (m n : ℕ) (f g : ℕ → ℕ → ℕ)
    → all_below m (λ x. all_below n (λ y. f x y == g x y)) ≡ true
    → (x y : ℕ) → x < m
    → y < n
    → f x y ≡ g x y
on_two m n f g table x y hx hy = (==_iff (f x y) (g x y)).0 (
    all_below-true n (λ y. f x y == g x y) y
      (all_below-true m (λ x. all_below n (λ y. f x y == g x y)) x table hx) hy)

on_three :
    (l m n : ℕ) (f g : ℕ → ℕ → ℕ → ℕ)
    → all_below l (λ x. all_below m (λ y. all_below n (λ z. f x y z == g x y z))) ≡ true
    → (x y z : ℕ) → x < l
    → y < m
    → z < n
    → f x y z ≡ g x y z
on_three l m n f g table x y z hx hy hz =
    on_two m n (f x) (g x)
      (all_below-true l (λ x. all_below m (λ y. all_below n (λ z. f x y z == g x y z))) x table hx)
      y z hy hz

module _ (p b0 b1 b2 : ℕ) (hp : p < 256) (h0 : b0 < 256) (h1 : b1 < 256) (h2 : b2 < 256) where
  pub slot_12_lem : slot_12 p b0 ≡ p / 64 * 64 + b0 / 4
  unfolding slot_12 all_below
  slot_12_lem =
      ap₂ bit_or (on_bytes (λ v. bit_and v 0xc0) (λ v. v / 64 * 64) refl p hp)
        (on_bytes (λ v. bit_and (v >>> 2) 0x3f) (λ v. v / 4) refl b0 h0)
      ∙ on_two 4 64 (λ x y. bit_or (x * 64) y) (λ x y. x * 64 + y) refl (p / 64) (b0 / 4)
          (omega arith) (omega arith)

  pub slot_13_lem : slot_13 p b0 b1 ≡ b0 % 4 * 64 + b1 / 64 * 16 + p % 16
  unfolding slot_13 all_below
  slot_13_lem =
      ap₂ bit_or
        (ap₂ bit_or (on_bytes (λ v. bit_and v 0x0f) (λ v. v % 16) refl p hp)
          (on_bytes (λ v. bit_and (v <<< 6) 0xc0) (λ v. v % 4 * 64) refl b0 h0))
        (on_bytes (λ v. bit_and (v >>> 2) 0x30) (λ v. v / 64 * 16) refl b1 h1)
      ∙ on_three 16 4 4 (λ x y z. bit_or (bit_or x (y * 64)) (z * 16))
          (λ x y z. y * 64 + z * 16 + x) refl (p % 16) (b0 % 4) (b1 / 64) (omega arith)
          (omega arith) (omega arith)

  pub slot_19_lem : slot_19 p b1 ≡ p / 16 * 16 + b1 / 4 % 16
  unfolding slot_19 all_below
  slot_19_lem =
      ap₂ bit_or (on_bytes (λ v. bit_and v 0xf0) (λ v. v / 16 * 16) refl p hp)
        (on_bytes (λ v. bit_and (v >>> 2) 0x0f) (λ v. v / 4 % 16) refl b1 h1)
      ∙ on_two 16 16 (λ x y. bit_or (x * 16) y) (λ x y. x * 16 + y) refl (p / 16) (b1 / 4 % 16)
          (omega arith) (omega arith)

  pub slot_20_lem : slot_20 p b1 b2 ≡ b1 % 4 * 64 + b2 / 16 * 4 + p % 4
  unfolding slot_20 all_below
  slot_20_lem =
      ap₂ bit_or
        (ap₂ bit_or (on_bytes (λ v. bit_and v 0x03) (λ v. v % 4) refl p hp)
          (on_bytes (λ v. bit_and (v <<< 6) 0xc0) (λ v. v % 4 * 64) refl b1 h1))
        (on_bytes (λ v. bit_and (v >>> 2) 0x3c) (λ v. v / 16 * 4) refl b2 h2)
      ∙ on_three 4 4 16 (λ x y z. bit_or (bit_or x (y * 64)) (z * 4)) (λ x y z. y * 64 + z * 4 + x)
          refl (p % 4) (b1 % 4) (b2 / 16) (omega arith) (omega arith) (omega arith)

module _ (v w x : ℕ) (hv : v < 256) (hw : w < 256) (hx : x < 256) where
  pub first_byte_lem : first_byte v w ≡ v % 64 * 4 + w / 64
  unfolding first_byte all_below
  first_byte_lem =
      ap₂ bit_or (on_bytes (λ v. bit_and (u8 (v <<< 2)) 0xfc) (λ v. v % 64 * 4) refl v hv)
        (on_bytes (λ v. bit_and (v >>> 6) 0x03) (λ v. v / 64) refl w hw)
      ∙ on_two 64 4 (λ x y. bit_or (x * 4) y) (λ x y. x * 4 + y) refl (v % 64) (w / 64)
          (omega arith) (omega arith)

  pub second_byte_lem :
      second_byte v w x ≡ bit_or (bit_or (v / 16 % 4 * 64) (w / 4 % 16 * 16)) (x / 64)
  unfolding second_byte all_below
  second_byte_lem =
      ap₂ bit_or
        (ap₂ bit_or (on_bytes (λ v. bit_and (u8 (v <<< 2)) 0xc0) (λ v. v / 16 % 4 * 64) refl v hv)
          (on_bytes (λ v. bit_and (u8 (v <<< 2)) 0xf0) (λ v. v / 4 % 16 * 16) refl w hw))
        (on_bytes (λ v. bit_and (v >>> 6) 0x03) (λ v. v / 64) refl x hx)

  pub third_byte_lem : third_byte x ≡ x / 4 % 16 * 16
  unfolding third_byte all_below
  third_byte_lem = on_bytes (λ v. bit_and (u8 (v <<< 2)) 0xf0) (λ v. v / 4 % 16 * 16) refl x hx

  pub second_byte-lt : second_byte v w x < 256
  unfolding all_below
  second_byte-lt = omega (
    arith,
    second_byte_lem,
    on_three 4 16 4 (λ x y z. bit_or (bit_or (x * 64) (y * 16)) z / 256) (λ x y z. 0) refl
        (v / 16 % 4) (w / 4 % 16) (x / 64) (omega arith) (omega arith) (omega arith),
  )
