-- ===== src/Fec/Trellis/Output.antt =====
-- src/dmr/fec/trellis.c: what the decoder gives.
use dmrlib.Common.{
  ℕ, zero, suc, sym, true, ◌*◌, ◌==◌, ==_iff, all_below, all_below-true, drop, ◌≡◌, refl, ap, ◌∙◌,
  ◌⊎◌, inl, inr, arith, Bool, false, Option, none, some, List, length, length-fill, get_or,
  get_or_ext, get_or-fill_hit, fill, replicate,
}
use dmrlib.Bits.{bits_to_bytes_within, bits_to_byte}
use dmrlib.Fec.Trellis.{Stack, map_back, put_tribits, trellis_rate_34_decode}

get_or-replicate {ℓ} : {A : Type ℓ} (n i : ℕ) (v : A) → get_or (replicate n v) i v ≡ v
get_or-replicate zero i v = refl
get_or-replicate (suc n) zero v = refl
get_or-replicate (suc n) (suc i) v = get_or-replicate n i v

cleared :
    (info : List Bool)
    → length info ≡ 196
    → fill 196 0 (λ i. i) (λ _. false) info ≡ replicate 196 false
cleared info size =
    get_or_ext false (fill 196 0 (λ i. i) (λ _. false) info) (replicate 196 false)
      (length-fill (λ i. i) (λ _. false) 196 0 info ∙ size)
      (λ i below.
        get_or-fill_hit (λ i. i) (λ _. false) 196 0 i false info (omega arith)
          (omega (arith, length-fill (λ (i : ℕ). i) (λ _. false) 196 0 info))
          (omega (arith, length-fill (λ (i : ℕ). i) (λ _. false) 196 0 info))
          (λ m lo hi e. omega arith)
        ∙ sym (get_or-replicate 196 i false))

bytes_zero : all_below 18 (λ i. bits_to_byte (drop (i * 8) (replicate 196 false)) == 0) ≡ true
unfolding all_below bits_to_byte
bytes_zero = refl

packed :
    (bytes : List ℕ)
    → length bytes ≡ 18
    → bits_to_bytes_within (replicate 196 false) 144 bytes 18 ≡ replicate 18 0
unfolding bits_to_bytes_within
packed bytes size =
    get_or_ext 0 (fill 18 0 (λ i. i) (λ i. bits_to_byte (drop (i * 8) (replicate 196 false))) bytes)
      (replicate 18 0) (long bytes ∙ size)
      (λ i below.
        get_or-fill_hit (λ i. i) (λ i. bits_to_byte (drop (i * 8) (replicate 196 false))) 18 0 i 0
          bytes (omega arith) (omega (arith, long bytes)) (omega (arith, long bytes))
          (λ m lo hi e. omega arith)
        ∙ (==_iff _ 0).0 (
            all_below-true 18 (λ i. bits_to_byte (drop (i * 8) (replicate 196 false)) == 0) i
              bytes_zero (omega (arith, long bytes)))
        ∙ sym (get_or-replicate 18 i 0))
  where
    long :
        (bytes : List ℕ)
        → length (fill 18 0 (λ i. i) (λ i. bits_to_byte (drop (i * 8) (replicate 196 false))) bytes)
          ≡ length bytes
    long bytes =
        length-fill (λ i. i) (λ i. bits_to_byte (drop (i * 8) (replicate 196 false))) 18 0 bytes

map_back-zeros :
    (bits info : List Bool) (bytes : List ℕ) (state : Option (ℕ × List ℕ))
    → length info ≡ 196
    → length bytes ≡ 18
    → (map_back bits info bytes state ≡ none)
      ⊎ ((w : List Bool) × (map_back bits info bytes state ≡ some (w, replicate 18 0)))
unfolding map_back
map_back-zeros bits info bytes none h k = inl refl
map_back-zeros bits info bytes (some (last, tribits)) h k = inr (
  put_tribits 48 0 tribits bits,
  ap (λ t. some (put_tribits 48 0 tribits bits, bits_to_bytes_within t 144 bytes 18))
        (cleared info h)
      ∙ ap (λ t. some (put_tribits 48 0 tribits bits, t)) (packed bytes k),
)

-- Whatever the packet and the arrays on the stack hold, of which `info` has 196 bits, the decoder
-- fails or gives eighteen bytes that are all zero.
pub trellis_rate_34_decode-zeros :
    (stack : Stack) (packet bytes : List ℕ)
    → length stack.info ≡ 196
    → length bytes ≡ 18
    → (trellis_rate_34_decode stack packet bytes ≡ none)
      ⊎ ((w : List Bool) × (trellis_rate_34_decode stack packet bytes ≡ some (w, replicate 18 0)))
unfolding trellis_rate_34_decode
trellis_rate_34_decode-zeros stack packet bytes h k =
    map_back-zeros _ _ bytes _ (length-fill _ _ 98 0 _ ∙ length-fill _ _ 98 0 stack.info ∙ h) k
