-- ===== src/Fec/Rs/Detect.antt =====
-- Which messages the parity check accepts, and the corruptions that it never accepts.
use dmrlib.Common.{ℕ, zero, suc, ◌+◌, ◌-◌, ◌≤◌, ◌<◌, ◌≡◌, refl, sym, subst, ap, ap₂, ◌∙◌, arith}
use dmrlib.Common.{true, List, [], ◌∷◌, ◌++◌, ◌↔◌}
use dmrlib.Common.{length, length-append, get_or, take, All, All-fill, All-get_or}
use dmrlib.Common.{length-fill, get_or-fill_hit, get_or-fill_miss}
use dmrlib.Common.Xor.{xor_self, xor_eq_zero}
use dmrlib.Bits.Convert.{IsByte}
use dmrlib.Fec.Rs.{encode_from, encode, rs_12_9_4_decode, rs_12_9_4_encode}
use dmrlib.Fec.Rs.Register.{lfsr, encode-lfsr, lfsr-IsByte}
use dmrlib.Fec.Rs.Burst.{burst_after}

-- The check accepts exactly the words whose last three bytes are the parity of the first nine,
-- in reverse order.
pub rs_12_9_4_decode_iff :
    (w : List ℕ)
    → (rs_12_9_4_decode w ≡ true) ↔ (
        (get_or w 9 0 ≡ get_or (encode w) 2 0)
        × (get_or w 10 0 ≡ get_or (encode w) 1 0)
        × (get_or w 11 0 ≡ get_or (encode w) 0 0))
unfolding rs_12_9_4_decode
rs_12_9_4_decode_iff w = ground (
  arith,
  xor_eq_zero (get_or w 9 0) (get_or (encode w) 2 0),
  xor_eq_zero (get_or w 10 0) (get_or (encode w) 1 0),
  xor_eq_zero (get_or w 11 0) (get_or (encode w) 0 0),
  xor_self (get_or (encode w) 2 0),
  xor_self (get_or (encode w) 1 0),
  xor_self (get_or (encode w) 0 0),
)

-- The parity reads the first nine bytes only.
encode_from_local :
    (w w' : List ℕ) (n i : ℕ) (parity : List ℕ)
    → ((k : ℕ) → k < i + n → get_or w k 0 ≡ get_or w' k 0)
    → encode_from w n i parity ≡ encode_from w' n i parity
unfolding encode_from
encode_from_local w w' zero i parity h = refl
encode_from_local w w' (suc n) i parity h =
    rw (h i (omega arith)) (encode_from_local w w' n (i + 1) _ (λ k l. h k (omega arith)))

encode_local :
    (w w' : List ℕ) → ((k : ℕ) → k < 9 → get_or w k 0 ≡ get_or w' k 0) → encode w ≡ encode w'
unfolding encode
encode_local w w' h = encode_from_local w w' 9 0 (0 ∷ 0 ∷ 0 ∷ []) (λ k l. h k (omega arith))

-- Encoding keeps the nine data bytes and makes a word that the check accepts.
pub rs_12_9_4_decode-encode :
    (w : List ℕ)
    → length w ≡ 12
    → (rs_12_9_4_decode (rs_12_9_4_encode w) ≡ true)
      × (length (rs_12_9_4_encode w) ≡ 12)
      × ((k : ℕ) → k < 9 → get_or (rs_12_9_4_encode w) k 0 ≡ get_or w k 0)
unfolding rs_12_9_4_encode
rs_12_9_4_decode-encode w e = (
  (rs_12_9_4_decode_iff (rs_12_9_4_encode w)).1
      (parity_at 2 (omega arith), parity_at 1 (omega arith), parity_at 0 (omega arith)),
  length-fill (λ i. 11 - i) (λ i. get_or (encode w) i 0) 3 0 w ∙ e,
  kept,
)
  where
    kept : (k : ℕ) → k < 9 → get_or (rs_12_9_4_encode w) k 0 ≡ get_or w k 0
    kept k h =
        get_or-fill_miss (λ i. 11 - i) (λ i. get_or (encode w) i 0) 3 0 k 0 w
          (λ j lo hi q. omega arith)

    parity_at :
        (i : ℕ)
        → i < 3
        → get_or (rs_12_9_4_encode w) (11 - i) 0 ≡ get_or (encode (rs_12_9_4_encode w)) i 0
    parity_at i h =
        get_or-fill_hit (λ i. 11 - i) (λ i. get_or (encode w) i 0) 3 0 i 0 w (omega arith)
          (omega arith) (omega arith) (λ m l k q. omega arith)
        ∙ ap (λ t. get_or t i 0) (encode_local w (rs_12_9_4_encode w) (λ k l. sym (kept k l)))

three_reads :
    (bs : List ℕ) (p q r : ℕ)
    → lfsr bs p q r
      ≡ get_or (lfsr bs p q r) 0 0 ∷ get_or (lfsr bs p q r) 1 0 ∷ get_or (lfsr bs p q r) 2 0 ∷ []
unfolding lfsr
three_reads [] p q r = refl
three_reads (b ∷ bs) p q r = three_reads bs _ _ _

take-append :
    (n : ℕ) (xs ys : List ℕ) → length xs ≤ n → take n (xs ++ ys) ≡ xs ++ take (n - length xs) ys
take-append n [] ys h = ap (λ t. take t ys) {x = n} {y = n - 0} (omega arith)
take-append zero (x ∷ xs) ys h = absurd (omega arith)
take-append (suc n) (x ∷ xs) ys h =
    ap (λ t. x ∷ t)
      (take-append n xs ys (omega arith)
        ∙ ap (λ t. xs ++ take t ys) {x = n - length xs} {y = suc n - suc (length xs)} (omega arith))

nine :
    (pre : List ℕ) (x y z : ℕ) (post : List ℕ)
    → length pre ≤ 6
    → take 9 (pre ++ x ∷ y ∷ z ∷ post) ≡ pre ++ x ∷ y ∷ z ∷ take (6 - length pre) post
nine pre x y z post h =
    take-append 9 pre (x ∷ y ∷ z ∷ post) (omega arith)
    ∙ ap (λ t. pre ++ take t (x ∷ y ∷ z ∷ post)) {x = 9 - length pre}
        {y = suc (suc (suc (6 - length pre)))} (omega arith)

encode_reads :
    (w : List ℕ)
    → 9 ≤ length w
    → encode w ≡ get_or (encode w) 0 0 ∷ get_or (encode w) 1 0 ∷ get_or (encode w) 2 0 ∷ []
encode_reads w h = rw (encode-lfsr w h) (three_reads (take 9 w) 0 0 0)

three_eq :
    {a b c a' b' c' : ℕ}
    → a ≡ a'
    → b ≡ b'
    → c ≡ c'
    → ◌≡◌ {A = List ℕ} (a ∷ b ∷ c ∷ []) (a' ∷ b' ∷ c' ∷ [])
three_eq p q r = ap₂ ◌∷◌ p (ap₂ ◌∷◌ q (ap (λ t. t ∷ []) r))

All-take : (n : ℕ) (xs : List ℕ) → All IsByte xs → All IsByte (take n xs)
All-take zero xs h = tt
All-take (suc n) [] h = tt
All-take (suc n) (x ∷ xs) h = (h.0, All-take n xs h.1)

-- Words that share what follows the burst agree from there on.
get_or-after :
    (pre post : List ℕ) (x y z x' y' z' k : ℕ)
    → length pre + 3 ≤ k
    → get_or (pre ++ x ∷ y ∷ z ∷ post) k 0 ≡ get_or (pre ++ x' ∷ y' ∷ z' ∷ post) k 0
get_or-after [] post x y z x' y' z' (suc (suc (suc k))) h = refl
get_or-after [] post x y z x' y' z' zero h = absurd (omega arith)
get_or-after [] post x y z x' y' z' (suc zero) h = absurd (omega arith)
get_or-after [] post x y z x' y' z' (suc (suc zero)) h = absurd (omega arith)
get_or-after (b ∷ pre) post x y z x' y' z' zero h = absurd (omega arith)
get_or-after (b ∷ pre) post x y z x' y' z' (suc k) h =
    get_or-after pre post x y z x' y' z' k (omega arith)

-- Of two words that differ in at most three consecutive data bytes, the check does not accept
-- both unless they are equal: no such burst of errors in a sent message goes unnoticed.
pub rs_12_9_4_decode_burst :
    (pre post : List ℕ) (x y z x' y' z' : ℕ)
    → All IsByte pre
    → All IsByte post
    → All IsByte (x ∷ y ∷ z ∷ x' ∷ y' ∷ z' ∷ [])
    → length pre ≤ 6
    → length (pre ++ x ∷ y ∷ z ∷ post) ≡ 12
    → rs_12_9_4_decode (pre ++ x ∷ y ∷ z ∷ post) ≡ true
    → rs_12_9_4_decode (pre ++ x' ∷ y' ∷ z' ∷ post) ≡ true
    → (x ≡ x') × (y ≡ y') × (z ≡ z')
rs_12_9_4_decode_burst pre post x y z x' y' z' hpre hpost hs short len ok ok' =
    burst_after x y z x' y' z' hs.0 hs.1.0 hs.1.1.0 hs.1.1.1.0 hs.1.1.1.1.0 hs.1.1.1.1.1.0
      (take (6 - length pre) post) (All-take (6 - length pre) post hpost) pre 0 0 0 hpre
      (omega arith) (omega arith) (omega arith) same
  where
    w : List ℕ
    w = pre ++ x ∷ y ∷ z ∷ post

    w' : List ℕ
    w' = pre ++ x' ∷ y' ∷ z' ∷ post

    length-w' : length w' ≡ 12
    length-w' =
        omega (arith, length-append pre (x ∷ y ∷ z ∷ post), length-append pre (x' ∷ y' ∷ z' ∷ post))

    parities : encode w ≡ encode w'
    parities =
        let a = (rs_12_9_4_decode_iff w).0 ok in
        let b = (rs_12_9_4_decode_iff w').0 ok' in
        encode_reads w (omega arith)
        ∙ three_eq (sym a.2 ∙ get_or-after pre post x y z x' y' z' 11 (omega arith) ∙ b.2)
            (sym a.1 ∙ get_or-after pre post x y z x' y' z' 10 (omega arith) ∙ b.1)
            (sym a.0 ∙ get_or-after pre post x y z x' y' z' 9 (omega arith) ∙ b.0)
        ∙ sym (encode_reads w' (rw length-w' (omega arith)))

    same :
        lfsr (pre ++ x ∷ y ∷ z ∷ take (6 - length pre) post) 0 0 0
        ≡ lfsr (pre ++ x' ∷ y' ∷ z' ∷ take (6 - length pre) post) 0 0 0
    same =
        ap (λ t. lfsr t 0 0 0) (sym (nine pre x y z post short))
        ∙ sym (encode-lfsr w (omega arith))
        ∙ parities
        ∙ encode-lfsr w' (rw length-w' (omega arith))
        ∙ ap (λ t. lfsr t 0 0 0) (nine pre x' y' z' post short)

-- The encoder makes bytes of bytes.
pub rs_12_9_4_encode-IsByte :
    (w : List ℕ) → 9 ≤ length w → All IsByte w → All IsByte (rs_12_9_4_encode w)
unfolding rs_12_9_4_encode
rs_12_9_4_encode-IsByte w len small =
    All-fill IsByte (λ i. 11 - i) (λ i. get_or (encode w) i 0) 3 0 w small
      (λ i lo hi. All-get_or IsByte (encode w) i 0 parities (omega arith))
  where
    parities : All IsByte (encode w)
    parities = subst (All IsByte) (sym (encode-lfsr w len)) (
        lfsr-IsByte (take 9 w) 0 0 0 (All-take 9 w small) (omega arith) (omega arith) (omega arith))
