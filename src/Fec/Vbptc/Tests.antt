-- ===== src/Fec/Vbptc/Tests.antt =====
-- Concrete matrices.
use dmrlib.Common.{
  ℕ, ◌-◌, ◌*◌, ◌<◌, ◌≡◌, ◌↔◌, refl, arith, min, Bool, true, false, List, [], ◌∷◌, some, replicate,
}
use dmrlib.Fec.Vbptc.{Vbptc, vbptc_add, check_row}
use dmrlib.Fec.Vbptc.Add.{IsVbptc, IsFilled, filled, vbptc_add-IsFilled}
use dmrlib.Fec.Vbptc.Code.{encoded, vbptc_encode, vbptc_decode}
use dmrlib.Fec.Vbptc.RoundTrip.{vbptc_decode-encode}

-- Three rows with 47 of 48 cells filled.
abbrev nearly_full : Vbptc
nearly_full = record { matrix = replicate 48 true; row = 2; col = 15; rows = 3 }

nearly_full-IsVbptc : IsVbptc nearly_full
nearly_full-IsVbptc = record {
  size = refl;
  some_rows = omega arith;
  few_rows = omega arith;
  in_column = omega arith;
  in_matrix = omega arith;
}

vbptc_add-IsFilled_example :
    IsFilled nearly_full
      (vbptc_add nearly_full (false ∷ true ∷ []) 2).1
      (false ∷ true ∷ [])
      0
      (min 2 (48 - filled nearly_full))
    × (((vbptc_add nearly_full (false ∷ true ∷ []) 2).0 ≡ false) ↔ (filled nearly_full ≡ 48))
vbptc_add-IsFilled_example =
    vbptc_add-IsFilled nearly_full (false ∷ true ∷ []) 2 nearly_full-IsVbptc (omega arith)

abbrev message : List Bool
message =
    true
    ∷ false
    ∷ true
    ∷ true
    ∷ false
    ∷ false
    ∷ true
    ∷ false
    ∷ true
    ∷ true
    ∷ true
    ∷ replicate 11 true

vbptc_decode-encode_example :
    (w : Vbptc) × (vbptc_encode nearly_full message 22 ≡ encoded w)
    × ((q : ℕ) → q < 2 → check_row w.matrix (q * 16) ≡ true)
    × (vbptc_decode w (replicate 22 false) 22 ≡ some message)
vbptc_decode-encode_example =
    vbptc_decode-encode nearly_full message refl (omega arith) (omega arith) refl
      (replicate 22 false) refl
