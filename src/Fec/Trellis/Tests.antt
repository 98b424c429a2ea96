-- ===== src/Fec/Trellis/Tests.antt =====
-- A packet whose points are all the first one, from which the state machine takes 48 zero tribits.
use dmrlib.Common.{◌≡◌, ◌⊎◌, refl, Bool, true, none, some, List, [], replicate}
use dmrlib.Fec.Trellis.{
  Stack, plus_one, trellis_rate_34_decode, tribits_from, tribit_round, next_tribit, match_from,
}
use dmrlib.Fec.Trellis.Output.{trellis_rate_34_decode-zeros}

tribits_zero : tribits_from 48 0 (replicate 49 0) (some (0, [])) ≡ some (0, replicate 48 0)
unfolding tribits_from tribit_round next_tribit match_from
tribits_zero = refl

abbrev stack : Stack
stack = record {
  bits = replicate 264 true;
  info = replicate 196 true;
  dibits = replicate 98 plus_one;
  deinterleaved = replicate 98 plus_one;
  points = replicate 49 0;
}

trellis_rate_34_decode-zeros_example :
    (trellis_rate_34_decode stack (replicate 33 0x22) (replicate 18 7) ≡ none)
    ⊎ ((w : List Bool) × (trellis_rate_34_decode stack (replicate 33 0x22) (replicate 18 7)
          ≡ some (w, replicate 18 0)))
trellis_rate_34_decode-zeros_example =
    trellis_rate_34_decode-zeros stack (replicate 33 0x22) (replicate 18 7) refl refl
