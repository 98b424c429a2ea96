-- ===== src/Queue/Raw.antt =====
-- src/dmr/raw.c: queues of raw buffers with a limit. The checks for NULL are left out.
pub mod Refine
use Prim.Native.Nat.{ℕ, ◌+◌}
use dmrlib.Common.{
  Bool, true, false, Option, none, some, List, [], ◌∷◌, ltb, ◌==◌, ◌||◌, if◌then◌else◌,
}
use dmrlib.Error.{Status, done, failed, out_of_memory}
use dmrlib.Queue.{TailQueue}
use dmrlib.Raw.{Raw, Memory, raw_new, u64}

-- The loop of `dmr_rawq_size`.
unfoldable pub count_from : List Raw → ℕ → ℕ
count_from [] i = i
count_from (raw ∷ rest) i = count_from rest (u64 (i + 1))

-- The loop of `dmr_rawq_each`, over what the callback changes.
unfoldable pub each_from {ℓ} : {S : Type ℓ} → List Raw → (Raw → S → S) → S → S
each_from [] cb userdata = userdata
each_from (raw ∷ rest) cb userdata = each_from rest cb (cb raw userdata)

module _ (tailq : TailQueue Raw) where
  open tailq use {Queue, init, insert_tail, insert_head, remove, first, empty, elements}

  -- `dmr_rawq`.
  pub record RawQueue : Type 0 where
    pub head : Queue
    pub limit : ℕ

  -- `given` is whether talloc gives memory.
  unfoldable pub rawq_new : Bool → ℕ → Option RawQueue
  rawq_new given limit = if given then some (record { head = init; limit = limit }) else none

  unfoldable pub rawq_size : RawQueue → ℕ
  rawq_size rawq = count_from (elements rawq.head) 0

  unfoldable pub rawq_add : RawQueue → Raw → Status × RawQueue
  rawq_add rawq raw =
      if rawq.limit == 0 || ltb (rawq_size rawq) rawq.limit
      then (done, record rawq { head = insert_tail rawq.head raw })
      else (failed, rawq)

  unfoldable pub addb_new : Memory → RawQueue → List ℕ → ℕ → Option Raw → Status × RawQueue
  addb_new memory rawq buf n none = (out_of_memory, rawq)
  addb_new memory rawq buf n (some raw) =
      rawq_add rawq (record raw { buf = memory.byte_copy raw.buf 0 buf n; len = n })

  -- `header` and `given` are those of `raw_new`.
  unfoldable pub rawq_addb : Memory → Bool → Bool → RawQueue → List ℕ → ℕ → Status × RawQueue
  rawq_addb memory header given rawq buf n = addb_new memory rawq buf n (raw_new header given n)

  unfoldable pub rawq_each {ℓ} : {S : Type ℓ} → RawQueue → (Raw → S → S) → S → S
  rawq_each rawq cb userdata = each_from (elements rawq.head) cb userdata

  unfoldable pub rawq_empty : RawQueue → Bool
  rawq_empty rawq = empty rawq.head

  unfoldable pub shift_first : RawQueue → Option Raw → Option Raw × RawQueue
  shift_first rawq none = (none, rawq)
  shift_first rawq (some raw) = (some raw, record rawq { head = remove rawq.head raw })

  unfoldable pub rawq_shift : RawQueue → Option Raw × RawQueue
  rawq_shift rawq = shift_first rawq (first rawq.head)

  unfoldable pub rawq_unshift : RawQueue → Raw → Status × RawQueue
  rawq_unshift rawq raw =
      if rawq.limit == 0 || ltb (rawq_size rawq) rawq.limit
      then (done, record rawq { head = insert_head rawq.head raw })
      else (failed, rawq)
