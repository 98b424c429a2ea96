-- ===== src/Fec/Rs/Burst.antt =====
-- Three consecutive bytes determine, and are determined by, what they do to the register.
use dmrlib.Common.{ℕ, ◌<◌, ◌≡◌, sym, ap, ◌∙◌}
use dmrlib.Common.{List, [], ◌∷◌, ◌++◌, bit_xor, All}
use dmrlib.Common.Xor.{xor_injective, xor_comm}
use dmrlib.Bits.Convert.{IsByte}
use dmrlib.Fec.Rs.{gmult}
use dmrlib.Fec.Rs.Register.{lfsr, next-IsByte, lfsr-injective, mul64_injective}

xor_left_injective : (c a b : ℕ) → bit_xor c a ≡ bit_xor c b → a ≡ b
xor_left_injective c a b e = xor_injective a b c (xor_comm a c ∙ e ∙ xor_comm c b)

xor_split : (a b c d : ℕ) → c ≡ d → bit_xor a c ≡ bit_xor b d → a ≡ b
xor_split a b c d e h = xor_injective a b c (h ∙ ap (bit_xor b) (sym e))

module _ (x y z x' y' z' : ℕ) (hx : x < 256) (hy : y < 256) (hz : z < 256) (hx' : x' < 256)
    (hy' : y' < 256) (hz' : z' < 256) (post : List ℕ) (small : All IsByte post) where
  burst_at :
      (p q r : ℕ)
      → p < 256
      → q < 256
      → r < 256
      → lfsr (x ∷ y ∷ z ∷ post) p q r ≡ lfsr (x' ∷ y' ∷ z' ∷ post) p q r
      → (x ≡ x') × (y ≡ y') × (z ≡ z')
  unfolding lfsr
  burst_at p q r hp hq hr e =
      let n1 = next-IsByte x p q r hx hp hq hr in
      let m1 = next-IsByte x' p q r hx' hp hq hr in
      let n2 = next-IsByte y _ _ _ hy n1.1 n1.2 n1.3 in
      let m2 = next-IsByte y' _ _ _ hy' m1.1 m1.2 m1.3 in
      let n3 = next-IsByte z _ _ _ hz n2.1 n2.2 n2.3 in
      let m3 = next-IsByte z' _ _ _ hz' m2.1 m2.2 m2.3 in
      let s = lfsr-injective post _ _ _ _ _ _ small n3.1 n3.2 n3.3 m3.1 m3.2 m3.3 e in
      let d3 = mul64_injective _ _ n3.0 m3.0 s.0 in
      let d2 = mul64_injective _ _ n2.0 m2.0 (xor_split _ _ _ _ (ap (gmult 56) d3) s.1) in
      let d1 =
        mul64_injective _ _ n1.0 m1.0
          (xor_split _ _ _ _ (ap (gmult 56) d2) (xor_split _ _ _ _ (ap (gmult 14) d3) s.2)) in
      (
        xor_injective x x' r d1,
        xor_split y y' _ _ (ap (λ t. bit_xor q (gmult 14 t)) d1) d2,
        xor_split z z' _ _
            (ap
                (λ t.
                  bit_xor (bit_xor p (gmult 56 t))
                    (gmult 14 (bit_xor y (bit_xor q (gmult 14 (bit_xor x r))))))
                d1
              ∙ ap (λ t. bit_xor (bit_xor p (gmult 56 (bit_xor x' r))) (gmult 14 t)) d2)
            d3,
      )

  -- After any bytes before them.
  pub burst_after :
      (pre : List ℕ) (p q r : ℕ)
      → All IsByte pre
      → p < 256
      → q < 256
      → r < 256
      → lfsr (pre ++ x ∷ y ∷ z ∷ post) p q r ≡ lfsr (pre ++ x' ∷ y' ∷ z' ∷ post) p q r
      → (x ≡ x') × (y ≡ y') × (z ≡ z')
  unfolding lfsr
  burst_after [] p q r hs hp hq hr e = burst_at p q r hp hq hr e
  burst_after (b ∷ pre) p q r hs hp hq hr e =
      let n = next-IsByte b p q r hs.0 hp hq hr in burst_after pre _ _ _ hs.1 n.1 n.2 n.3 e
