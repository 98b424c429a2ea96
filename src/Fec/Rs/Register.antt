-- ===== src/Fec/Rs/Register.antt =====
-- The parity loop as a shift register, and why its state determines what entered it.
use dmrlib.Common.{ℕ, zero, suc, ◌+◌, ◌≤◌, ◌<◌, ◌≡◌, refl, sym, ap, ◌∙◌, arith}
use dmrlib.Common.{true, ◌&&◌, List, [], ◌∷◌, bit_xor}
use dmrlib.Common.{◌==◌, ==_iff, ltb, length, get_or, take, drop, All, all_below, all_below-true}
use dmrlib.Common.Xor.{xor-lt, xor_injective, xor_comm}
use dmrlib.Bits.Convert.{IsByte}
use dmrlib.Fec.Rs.{gmult, poly, shift_parity, encode_from, encode}

-- The register, over the bytes themselves.
unfoldable pub lfsr : List ℕ → ℕ → ℕ → ℕ → List ℕ
lfsr [] p q r = p ∷ q ∷ r ∷ []
lfsr (b ∷ bs) p q r =
    lfsr bs (gmult 64 (bit_xor b r)) (bit_xor p (gmult 56 (bit_xor b r)))
      (bit_xor q (gmult 14 (bit_xor b r)))

drop-get_or : (i : ℕ) (xs : List ℕ) → i < length xs → drop i xs ≡ get_or xs i 0 ∷ drop (i + 1) xs
drop-get_or i [] h = absurd (omega arith)
drop-get_or zero (x ∷ xs) h = refl
drop-get_or (suc i) (x ∷ xs) h =
    drop-get_or i xs (omega arith)
    ∙ ap (λ t. get_or xs i 0 ∷ drop t (x ∷ xs)) {x = suc (i + 1)} {y = suc i + 1} (omega arith)

encode_from-lfsr :
    (bytes : List ℕ) (n i p q r : ℕ)
    → i + n ≤ length bytes
    → encode_from bytes n i (p ∷ q ∷ r ∷ []) ≡ lfsr (take n (drop i bytes)) p q r
unfolding encode_from shift_parity poly lfsr
encode_from-lfsr bytes zero i p q r h = refl
encode_from-lfsr bytes (suc n) i p q r h =
    encode_from-lfsr bytes n (i + 1) _ _ _ (omega arith)
    ∙ ap (λ t. lfsr (take (suc n) t) p q r) (sym (drop-get_or i bytes (omega arith)))

-- The code steps this register through the nine data bytes.
pub encode-lfsr : (bytes : List ℕ) → 9 ≤ length bytes → encode bytes ≡ lfsr (take 9 bytes) 0 0 0
unfolding encode
encode-lfsr bytes h = encode_from-lfsr bytes 9 0 0 0 0 (omega arith)

inverse_table : all_below 256 (λ d. gmult 0x36 (gmult 64 d) == d) ≡ true
unfolding all_below gmult
inverse_table = refl

range_table :
    all_below 256 (λ d. ltb (gmult 64 d) 256 && ltb (gmult 56 d) 256 && ltb (gmult 14 d) 256) ≡ true
unfolding all_below gmult
range_table = refl

pub mul64_injective : (d e : ℕ) → d < 256 → e < 256 → gmult 64 d ≡ gmult 64 e → d ≡ e
mul64_injective d e h k q = sym (back d h) ∙ ap (gmult 0x36) q ∙ back e k
  where
    back : (d : ℕ) → d < 256 → gmult 0x36 (gmult 64 d) ≡ d
    back d h =
        (==_iff _ d).0 (all_below-true 256 (λ d. gmult 0x36 (gmult 64 d) == d) d inverse_table h)

mul-lt : (d : ℕ) → d < 256 → (gmult 64 d < 256) × (gmult 56 d < 256) × (gmult 14 d < 256)
mul-lt d h = ground (
  arith,
  all_below-true 256 (λ d. ltb (gmult 64 d) 256 && ltb (gmult 56 d) 256 && ltb (gmult 14 d) 256) d
      range_table h,
)

-- One step from a state of bytes leads to a state of bytes.
pub next-IsByte :
    (b p q r : ℕ)
    → b < 256
    → p < 256
    → q < 256
    → r < 256
    → (bit_xor b r < 256)
      × (gmult 64 (bit_xor b r) < 256)
      × (bit_xor p (gmult 56 (bit_xor b r)) < 256)
      × (bit_xor q (gmult 14 (bit_xor b r)) < 256)
next-IsByte b p q r hb hp hq hr =
    let d = xor-lt 8 b r hb hr in
    let m = mul-lt (bit_xor b r) d in
    (d, m.0, xor-lt 8 p (gmult 56 (bit_xor b r)) hp m.1, xor-lt 8 q (gmult 14 (bit_xor b r)) hq m.2)

head_eq :
    (p q r p' q' r' : ℕ)
    → ◌≡◌ {A = List ℕ} (p ∷ q ∷ r ∷ []) (p' ∷ q' ∷ r' ∷ [])
    → (p ≡ p') × (q ≡ q') × (r ≡ r')
head_eq p q r p' q' r' e = ground arith

-- Two states that the same bytes lead to one state were one state.
pub lfsr-injective :
    (bs : List ℕ) (p q r p' q' r' : ℕ)
    → All IsByte bs
    → p < 256
    → q < 256
    → r < 256
    → p' < 256
    → q' < 256
    → r' < 256
    → lfsr bs p q r ≡ lfsr bs p' q' r'
    → (p ≡ p') × (q ≡ q') × (r ≡ r')
unfolding lfsr
lfsr-injective [] p q r p' q' r' small hp hq hr hp' hq' hr' e = head_eq p q r p' q' r' e
lfsr-injective (b ∷ bs) p q r p' q' r' small hp hq hr hp' hq' hr' e =
    let n = next-IsByte b p q r small.0 hp hq hr in
    let n' = next-IsByte b p' q' r' small.0 hp' hq' hr' in
    let ih = lfsr-injective bs _ _ _ _ _ _ small.1 n.1 n.2 n.3 n'.1 n'.2 n'.3 e in
    let d : bit_xor b r ≡ bit_xor b r' = mul64_injective _ _ n.0 n'.0 ih.0 in
    (
      xor_injective p p' (gmult 56 (bit_xor b r))
          (ih.1 ∙ ap (λ t. bit_xor p' (gmult 56 t)) (sym d)),
      xor_injective q q' (gmult 14 (bit_xor b r))
          (ih.2 ∙ ap (λ t. bit_xor q' (gmult 14 t)) (sym d)),
      xor_injective r r' b (xor_comm r b ∙ d ∙ xor_comm b r'),
    )

pub lfsr-IsByte :
    (bs : List ℕ) (p q r : ℕ)
    → All IsByte bs
    → p < 256
    → q < 256
    → r < 256
    → All IsByte (lfsr bs p q r)
unfolding lfsr
lfsr-IsByte [] p q r small hp hq hr = (hp, (hq, (hr, tt)))
lfsr-IsByte (b ∷ bs) p q r small hp hq hr =
    let n = next-IsByte b p q r small.0 hp hq hr in lfsr-IsByte bs _ _ _ small.1 n.1 n.2 n.3
