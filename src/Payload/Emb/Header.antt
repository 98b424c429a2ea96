-- ===== src/Payload/Emb/Header.antt =====
-- src/dmr/payload/emb.c: the header of embedded signalling as it is written and as it is read.
use dmrlib.Common.{
  ℕ, ◌+◌, ◌*◌, ◌/◌, ◌%◌, ◌<◌, ◌≤◌, ◌≡◌, refl, ap, ap₂, ◌∙◌, arith, Bool, true, false, ◌&&◌, ◌==◌,
  ==_iff, List, length, length-set, get_or, get_or-set_self, get_or-set_ne, set, if◌then◌else◌, u8,
  bit_and, bit_or, ◌<<<◌, ◌>>>◌, all_below, all_below-true, and-left, and-right, leb, same,
  same_iff,
}
use dmrlib.Common.Fields.{and_shift, and_low, or_fields}
use dmrlib.Fec.Qr.{qr_16_7_encode, qr_16_7_decode, encoder_map}
use dmrlib.Payload.Emb.{Emb, emb_bytes, emb_decode, header_byte, write_halves, emb_encode}

-- The low half of a byte, after the high half of another.
high_low : (p x : ℕ) → x < 16 → u8 (bit_or (bit_and p 0xf0) x) ≡ p / 16 % 16 * 16 + x
high_low p x h =
    ap (λ (t : ℕ). u8 (bit_or t x)) (and_shift 4 p 15 ∙ ap (λ (t : ℕ). t * 16) (and_low 4 (p / 16)))
    ∙ ap u8 (or_fields 4 (p / 16 % 16) x h)
    ∙ omega arith

nibbles_or :
    all_below 16 (λ low. all_below 256 (λ high. bit_or low (high * 16) == high * 16 + low)) ≡ true
unfolding all_below
nibbles_or = refl

-- The high half of a byte, before the low half of another.
low_high : (p x : ℕ) → x < 256 → u8 (bit_or (bit_and p 0x0f) (x <<< 4)) ≡ x % 16 * 16 + p % 16
low_high p x h =
    ap (λ (t : ℕ). u8 (bit_or t (x * 16))) (and_low 4 p)
    ∙ ap u8 (
        (==_iff _ _).0 (
          all_below-true 256 (λ high. bit_or (p % 16) (high * 16) == high * 16 + p % 16) x
            (all_below-true 16
              (λ low. all_below 256 (λ high. bit_or low (high * 16) == high * 16 + low)) (p % 16)
              nibbles_or (omega arith))
            h))
    ∙ omega arith

-- A byte is read from the two halves of it.
join_halves :
    (v w x : ℕ)
    → x < 256
    → v % 16 ≡ x / 16
    → w / 16 % 16 ≡ x % 16
    → bit_or (bit_and (u8 (v <<< 4)) 0xf0) (bit_and (w >>> 4) 0x0f) ≡ x
join_halves v w x h high low =
    ap₂ bit_or
      (and_shift 4 (u8 (v * 16)) 15
        ∙ ap (λ (t : ℕ). t * 16) (and_low 4 (u8 (v * 16) / 16) ∙ omega arith))
      (and_low 4 (w / 16) ∙ low)
    ∙ or_fields 4 (x / 16) (x % 16) (omega arith)
    ∙ omega arith

abbrev stored : List ℕ → ℕ → ℕ → ℕ → ℕ → List ℕ
stored packet a b c d = set (set (set (set packet 13 a) 14 b) 18 c) 19 d

read_13 :
    (packet : List ℕ) (a b c d : ℕ) → 20 ≤ length packet → get_or (stored packet a b c d) 13 0 ≡ a
read_13 packet a b c d long =
    get_or-set_ne (set (set (set packet 13 a) 14 b) 18 c) 19 13 d 0 (λ e. omega arith)
    ∙ get_or-set_ne (set (set packet 13 a) 14 b) 18 13 c 0 (λ e. omega arith)
    ∙ get_or-set_ne (set packet 13 a) 14 13 b 0 (λ e. omega arith)
    ∙ get_or-set_self packet 13 a 0 (omega arith)

read_14 :
    (packet : List ℕ) (a b c d : ℕ) → 20 ≤ length packet → get_or (stored packet a b c d) 14 0 ≡ b
read_14 packet a b c d long =
    get_or-set_ne (set (set (set packet 13 a) 14 b) 18 c) 19 14 d 0 (λ e. omega arith)
    ∙ get_or-set_ne (set (set packet 13 a) 14 b) 18 14 c 0 (λ e. omega arith)
    ∙ get_or-set_self (set packet 13 a) 14 b 0 (omega (arith, length-set packet 13 a))

read_18 :
    (packet : List ℕ) (a b c d : ℕ) → 20 ≤ length packet → get_or (stored packet a b c d) 18 0 ≡ c
read_18 packet a b c d long =
    get_or-set_ne (set (set (set packet 13 a) 14 b) 18 c) 19 18 d 0 (λ e. omega arith)
    ∙ get_or-set_self (set (set packet 13 a) 14 b) 18 c 0
        (omega (arith, length-set packet 13 a, length-set (set packet 13 a) 14 b))

read_19 :
    (packet : List ℕ) (a b c d : ℕ) → 20 ≤ length packet → get_or (stored packet a b c d) 19 0 ≡ d
read_19 packet a b c d long = get_or-set_self (set (set (set packet 13 a) 14 b) 18 c) 19 d 0 (
    omega (
      arith,
      length-set packet 13 a,
      length-set (set packet 13 a) 14 b,
      length-set (set (set packet 13 a) 14 b) 18 c,
    ))

-- What is read where the halves of two bytes are stored, whatever the other halves are.
read_stored :
    (packet : List ℕ) (p q r s b0 b1 : ℕ)
    → 20 ≤ length packet
    → b0 < 256
    → b1 < 256
    → emb_bytes (
        stored packet
          (u8 (bit_or (bit_and p 0xf0) (b0 >>> 4)))
          (u8 (bit_or (bit_and q 0x0f) (b0 <<< 4)))
          (u8 (bit_or (bit_and r 0xf0) (b1 >>> 4)))
          (u8 (bit_or (bit_and s 0x0f) (b1 <<< 4))))
      ≡ (b0, b1)
unfolding emb_bytes
read_stored packet p q r s b0 b1 long h0 h1 =
    rw
      (
        read_13 packet _ _ _ _ long,
        read_14 packet _ _ _ _ long,
        read_18 packet _ _ _ _ long,
        read_19 packet _ _ _ _ long,
      )
      (ap₂ (λ x y. (x, y))
        (join_halves _ _ b0 h0 (omega (arith, high_low p (b0 / 16) (omega arith)))
          (omega (arith, low_high q b0 h0)))
        (join_halves _ _ b1 h1 (omega (arith, high_low r (b1 / 16) (omega arith)))
          (omega (arith, low_high s b1 h1))))

read_halves :
    (packet : List ℕ) (b0 b1 : ℕ)
    → 20 ≤ length packet
    → b0 < 256
    → b1 < 256
    → emb_bytes (write_halves packet (b0, b1)) ≡ (b0, b1)
unfolding write_halves
read_halves packet b0 b1 long h0 h1 = read_stored packet _ _ _ _ b0 b1 long h0 h1

-- What a header becomes: the code puts a parity bit in place of the lowest bit.
abbrev header : ℕ → ℕ → ℕ → ℕ × ℕ
header color pi lcss =
    qr_16_7_encode
      (bit_or (bit_or (bit_and color 0x0f) (pi <<< 4)) (u8 (bit_and lcss 0x03 <<< 5)), 0)

abbrev reads : ℕ → ℕ → ℕ → Bool
reads color pi lcss =
    let bytes = header color pi lcss in
    qr_16_7_decode bytes
    && (leb bytes.0 255
        && (leb bytes.1 255
            && ((bit_and (bytes.0 >>> 4) 0x0f == lcss * 2 + pi)
                && (same (bit_and bytes.0 0x08 == 0x08) (leb 8 color)
                    && (bit_and (bytes.0 >>> 5) 0x07 == lcss)))))

all_read :
    all_below 16 (λ color. all_below 2 (λ pi. all_below 4 (λ lcss. reads color pi lcss))) ≡ true
unfolding all_below qr_16_7_encode qr_16_7_decode encoder_map
all_read = refl

-- The fields of what is read back.
record IsRead (color pi lcss : ℕ) : Type 0 where
  accepted : qr_16_7_decode (header color pi lcss) ≡ true
  first_byte : (header color pi lcss).0 < 256
  second_byte : (header color pi lcss).1 < 256
  read_color : bit_and ((header color pi lcss).0 >>> 4) 0x0f ≡ lcss * 2 + pi
  read_pi : (bit_and (header color pi lcss).0 0x08 == 0x08) ≡ leb 8 color
  read_lcss : bit_and ((header color pi lcss).0 >>> 5) 0x07 ≡ lcss

read_one : (color pi lcss : ℕ) → color < 16 → pi < 2 → lcss < 4 → reads color pi lcss ≡ true
read_one color pi lcss p q r =
    all_below-true 4 (reads color pi) lcss
      (all_below-true 2 (λ b. all_below 4 (reads color b)) pi
        (all_below-true 16 (λ c. all_below 2 (λ b. all_below 4 (reads c b))) color all_read p) q)
      r

IsRead-header : (color pi lcss : ℕ) → color < 16 → pi < 2 → lcss < 4 → IsRead color pi lcss
IsRead-header color pi lcss p q r =
    let bytes = header color pi lcss in
    let h = read_one color pi lcss p q r in
    let h1 = and-right (qr_16_7_decode bytes) _ h in
    let h2 = and-right (leb bytes.0 255) _ h1 in
    let h3 = and-right (leb bytes.1 255) _ h2 in
    let h4 = and-right (bit_and (bytes.0 >>> 4) 0x0f == lcss * 2 + pi) _ h3 in
    let h5 = and-right (same (bit_and bytes.0 0x08 == 0x08) (leb 8 color)) _ h4 in
    record {
      accepted = and-left (qr_16_7_decode bytes) _ h;
      first_byte = below bytes.0 (and-left (leb bytes.0 255) _ h1);
      second_byte = below bytes.1 (and-left (leb bytes.1 255) _ h2);
      read_color = (==_iff _ _).0 (and-left _ _ h3);
      read_pi = (same_iff _ _).0 (and-left _ _ h4);
      read_lcss = (==_iff _ _).0 h5;
    }
  where
    below : (n : ℕ) → leb n 255 ≡ true → n < 256
    below n h = ground arith

pi_bit : Bool → ℕ
pi_bit pi = if pi then 1 else 0

pi_bit-lt : (pi : Bool) → pi_bit pi < 2
unfolding pi_bit
pi_bit-lt true = omega arith
pi_bit-lt false = omega arith

-- A header whose values fit, written into a packet of at least twenty bytes, is accepted by the
-- decoder, which reads the written LCSS; as colour code it reads twice the LCSS and the PI bit, and
-- as PI bit it reads whether the colour code is at least 8.
pub emb_decode-emb_encode :
    (packet : List ℕ) (emb old : Emb)
    → 20 ≤ length packet
    → emb.color_code < 16
    → emb.lcss < 4
    → ((emb_decode (emb_encode packet emb) old).0 ≡ true)
      × ((emb_decode (emb_encode packet emb) old).1.lcss ≡ emb.lcss)
      × ((emb_decode (emb_encode packet emb) old).1.color_code
          ≡ emb.lcss * 2 + (if emb.pi then 1 else 0))
      × ((emb_decode (emb_encode packet emb) old).1.pi ≡ leb 8 emb.color_code)
unfolding emb_decode emb_encode header_byte pi_bit
emb_decode-emb_encode packet emb old long color lcss =
    let good =
      IsRead-header emb.color_code (pi_bit emb.pi) emb.lcss color (pi_bit-lt emb.pi) lcss in
    rw
      (
        read_halves packet (header emb.color_code (pi_bit emb.pi) emb.lcss).0
            (header emb.color_code (pi_bit emb.pi) emb.lcss).1 long good.first_byte
            good.second_byte,
        good.accepted,
      )
      (refl, good.read_lcss, good.read_color, good.read_pi)
