-- ===== src/Fec/Bptc/Matrix.antt =====
-- Interleaving and the layout in a packet lose nothing.
use dmrlib.Common.{ℕ, ◌+◌, ◌-◌, ◌*◌, ◌%◌, ◌≤◌, ◌<◌, ◌≡◌, ◌≢◌, ◌∙◌, subst, arith}
use dmrlib.Common.{Bool, false, List, length, length-fill, get_or-fill_hit, get_or-fill_miss}
use dmrlib.Fec.Bptc.{at, take_info, put_info, deinterleave, interleave}
use native.Mathlib.Decide.{dec_lt}

-- `181` is prime to `196`, with the inverse `13`: no two rounds write one place.
interleave_once : (i m : ℕ) → 0 < i → i < m → m < 197 → (m * 181) % 196 ≢ (i * 181) % 196
interleave_once i m pos lt lim e = omega arith

at-interleave :
    (deint raw : List Bool) (i : ℕ)
    → length raw ≡ 196
    → 0 < i
    → i < 197
    → at (interleave deint raw) ((i * 181) % 196) ≡ at deint (i - 1)
unfolding interleave
at-interleave deint raw i len pos lt =
    get_or-fill_hit (λ i. (i * 181) % 196) (λ i. at deint (i - 1)) 196 1 i false raw (omega arith)
      (omega arith) (omega arith) (λ m l k. interleave_once i m pos l (omega arith))

at-deinterleave :
    (raw deint : List Bool) (i : ℕ)
    → length deint ≡ 196
    → 0 < i
    → i < 197
    → at (deinterleave raw deint) (i - 1) ≡ at raw ((i * 181) % 196)
unfolding deinterleave
at-deinterleave raw deint i len pos lt =
    get_or-fill_hit (λ i. i - 1) (λ i. at raw ((i * 181) % 196)) 196 1 i false deint (omega arith)
      (omega arith) (omega arith) (λ m l k q. omega arith)

module _ (src dst : List Bool) where
  at-take_info_low : (k : ℕ) → k < 98 → length dst ≡ 196 → at (take_info src dst) k ≡ at src k
  unfolding take_info
  at-take_info_low k lt len =
      get_or-fill_miss (λ k. 98 + k) (λ k. at src (166 + k)) 98 0 k false _
        (λ j lo hi q. omega arith)
      ∙ get_or-fill_hit (λ k. k) (at src) 98 0 k false dst (omega arith) (omega arith) (omega arith)
          (λ m l h q. omega arith)

  at-take_info_high :
      (k : ℕ) → k < 98 → length dst ≡ 196 → at (take_info src dst) (98 + k) ≡ at src (166 + k)
  unfolding take_info
  at-take_info_high k lt len =
      get_or-fill_hit (λ k. 98 + k) (λ k. at src (166 + k)) 98 0 k false _ (omega arith)
        (omega arith) (rw length-fill (omega arith)) (λ m l h q. omega arith)

  at-put_info_low : (k : ℕ) → k < 98 → length dst ≡ 264 → at (put_info src dst) k ≡ at src k
  unfolding put_info
  at-put_info_low k lt len =
      get_or-fill_miss (λ k. 166 + k) (λ k. at src (98 + k)) 98 0 k false _
        (λ j lo hi q. omega arith)
      ∙ get_or-fill_hit (λ k. k) (at src) 98 0 k false dst (omega arith) (omega arith) (omega arith)
          (λ m l h q. omega arith)

  at-put_info_high :
      (k : ℕ) → k < 98 → length dst ≡ 264 → at (put_info src dst) (166 + k) ≡ at src (98 + k)
  unfolding put_info
  at-put_info_high k lt len =
      get_or-fill_hit (λ k. 166 + k) (λ k. at src (98 + k)) 98 0 k false _ (omega arith)
        (omega arith) (rw length-fill (omega arith)) (λ m l h q. omega arith)

  -- The middle of the packet is not touched.
  pub at-put_info_middle : (k : ℕ) → 98 ≤ k → k < 166 → at (put_info src dst) k ≡ at dst k
  unfolding put_info
  at-put_info_middle k lo lt =
      get_or-fill_miss (λ k. 166 + k) (λ k. at src (98 + k)) 98 0 k false _ (λ j l h q. omega arith)
      ∙ get_or-fill_miss (λ k. k) (at src) 98 0 k false dst (λ j l h q. omega arith)

  pub length-put_info : length (put_info src dst) ≡ length dst
  unfolding put_info
  length-put_info =
      length-fill (λ k. 166 + k) (λ k. at src (98 + k)) 98 0 _
      ∙ length-fill (λ k. k) (at src) 98 0 dst

-- What the packet carries is taken out as it was put in.
at-take-put :
    (raw bits raw' : List Bool) (k : ℕ)
    → length bits ≡ 264
    → length raw' ≡ 196
    → k < 196
    → at (take_info (put_info raw bits) raw') k ≡ at raw k
at-take-put raw bits raw' k lb lr lt = elim (dec_lt k 98) [
  | yes low ↦ at-take_info_low (put_info raw bits) raw' k low lr ∙ at-put_info_low raw bits k low lb
  | no high ↦
      subst (λ t. at (take_info (put_info raw bits) raw') t ≡ at raw t) {x = 98 + (k - 98)} {y = k}
        (omega arith)
        (at-take_info_high (put_info raw bits) raw' (k - 98) (omega arith) lr
          ∙ at-put_info_high raw bits (k - 98) (omega arith) lb)
]

pub at-received :
    (deint raw bits raw' deint' : List Bool) (j : ℕ)
    → length raw ≡ 196
    → length bits ≡ 264
    → length raw' ≡ 196
    → length deint' ≡ 196
    → j < 196
    → at (deinterleave (take_info (put_info (interleave deint raw) bits) raw') deint') j
      ≡ at deint j
at-received deint raw bits raw' deint' j lr lb lr' ld lt =
    subst
      (λ t.
        at (deinterleave (take_info (put_info (interleave deint raw) bits) raw') deint') t
        ≡ at deint t)
      {x = j + 1 - 1} {y = j} (omega arith)
      (at-deinterleave _ deint' (j + 1) ld (omega arith) (omega arith)
        ∙ at-take-put (interleave deint raw) bits raw' (((j + 1) * 181) % 196) lb lr' (omega arith)
        ∙ at-interleave deint raw (j + 1) lr (omega arith) (omega arith))

pub length-deinterleave : (raw deint : List Bool) → length (deinterleave raw deint) ≡ length deint
unfolding deinterleave
length-deinterleave raw deint = length-fill (λ i. i - 1) (λ i. at raw ((i * 181) % 196)) 196 1 deint
