-- ===== src/Queue/Raw/Refine.antt =====
-- src/dmr/raw.c: a queue of raw buffers is a bounded list, first in and first out.
use Prim.Native.Nat.{ℕ, ◌+◌, ◌^◌, ◌<◌, ◌≤◌}
use dmrlib.Common.{
  suc, ◌≡◌, refl, ap, ap₂, ◌∙◌, ◌⊎◌, inl, inr, arith, Bool, true, false, Option, none, some, List,
  [], ◌∷◌, ◌++◌, length, length-append, ltb, ◌==◌, ◌||◌, if◌then◌else◌,
}
use dmrlib.Error.{Status, done, failed}
use dmrlib.Queue.{TailQueue, first_of}
use dmrlib.Raw.{Raw, u64}
use dmrlib.Queue.Raw.{
  RawQueue, count_from, rawq_size, rawq_add, rawq_unshift, rawq_shift, shift_first,
}

pub data Command : Type 0 where
  add_last add_first : Raw → Command
  take_first : Command

pub data Response : Type 0 where
  status : Status → Response
  element : Option Raw → Response

-- The abstract queue: a list that takes no element beyond its limit, if it has one.
unfoldable pub has_room : ℕ → List Raw → Bool
has_room limit held = limit == 0 || ltb (length held) limit

unfoldable pub obey : ℕ → List Raw → Command → Response × List Raw
unfolding has_room
obey limit held (add_last raw) =
    if has_room limit held then (status done, held ++ (raw ∷ [])) else (status failed, held)
obey limit held (add_first raw) =
    if has_room limit held then (status done, raw ∷ held) else (status failed, held)
obey limit [] take_first = (element none, [])
obey limit (raw ∷ held) take_first = (element (some raw), held)

unfoldable pub obey_all : ℕ → List Raw → List Command → List Response × List Raw
obey_all limit held [] = ([], held)
obey_all limit held (c ∷ commands) =
    let (answer, next) = obey limit held c in
    let (answers, last) = obey_all limit next commands in (answer ∷ answers, last)

module _ (tailq : TailQueue Raw) where
  unfoldable pub perform : RawQueue tailq → Command → Response × RawQueue tailq
  perform q (add_last raw) = let (s, r) = rawq_add tailq q raw in (status s, r)
  perform q (add_first raw) = let (s, r) = rawq_unshift tailq q raw in (status s, r)
  perform q take_first = let (e, r) = rawq_shift tailq q in (element e, r)

  unfoldable pub perform_all : RawQueue tailq → List Command → List Response × RawQueue tailq
  perform_all q [] = ([], q)
  perform_all q (c ∷ commands) =
      let (answer, next) = perform q c in
      let (answers, last) = perform_all next commands in (answer ∷ answers, last)

  -- No more elements than the limit, if there is one.
  pub record IsBounded (q : RawQueue tailq) : Type 0 where
    pub bounded : (q.limit ≡ 0) ⊎ (length (tailq.elements q.head) ≤ q.limit)
    pub small : q.limit < 2 ^ 64

  -- What one step of both gives.
  record IsStep (limit : ℕ) (concrete : Response × RawQueue tailq) (abstract : Response × List Raw)
      : Type 0 where
    same_answer : concrete.0 ≡ abstract.0
    same_elements : tailq.elements concrete.1.head ≡ abstract.1
    same_limit : concrete.1.limit ≡ limit
    still : IsBounded concrete.1

  count_from-length :
      (held : List Raw) (i : ℕ) → i + length held < 2 ^ 64 → count_from held i ≡ i + length held
  unfolding count_from
  count_from-length [] i h = omega arith
  count_from-length (raw ∷ held) i h =
      ap (count_from held) {x = u64 (i + 1)} {y = i + 1} (omega arith)
      ∙ count_from-length held (i + 1) (omega arith)
      ∙ omega arith

  -- The size is only read where there is a limit, which keeps it from wrapping.
  room-has_room :
      (q : RawQueue tailq)
      → IsBounded q
      → (q.limit == 0 || ltb (rawq_size tailq q) q.limit) ≡ has_room q.limit (tailq.elements q.head)
  unfolding has_room rawq_size
  room-has_room q good = elim good.bounded [
    | inl unlimited ↦ rw unlimited refl
    | inr le ↦
        ap (λ (n : ℕ). q.limit == 0 || ltb n q.limit)
          (count_from-length (tailq.elements q.head) 0 (omega (arith, good.small)) ∙ omega arith)
  ]

  room_left : (limit n : ℕ) → (limit == 0 || ltb n limit) ≡ true → (limit ≡ 0) ⊎ (suc n ≤ limit)
  room_left limit n h = ground arith

  abbrev stored : RawQueue tailq → tailq.Queue → Bool → Status × RawQueue tailq
  stored q new b = if b then (done, record q { head = new }) else (failed, q)

  -- Both insertions, from what the queue holds after one.
  insertion :
      (q : RawQueue tailq) (new : tailq.Queue) (held : List Raw)
      → IsBounded q
      → tailq.elements new ≡ held
      → length held ≡ suc (length (tailq.elements q.head))
      → (b : Bool) → has_room q.limit (tailq.elements q.head) ≡ b
      → IsStep q.limit
          (status (stored q new b).0, (stored q new b).1)
          (if b then (status done, held) else (status failed, tailq.elements q.head))
  unfolding has_room
  insertion q new held good e longer true h = record {
    same_answer = refl;
    same_elements = e;
    same_limit = refl;
    still = record {
      bounded = elim (room_left q.limit (length (tailq.elements q.head)) h) [
        | inl unlimited ↦ inl unlimited
        | inr le ↦ inr (omega (arith, ap length e))
      ];
      small = good.small;
    };
  }
  insertion q new held good e longer false h = record {
    same_answer = refl;
    same_elements = refl;
    same_limit = refl;
    still = good;
  }

  removal :
      (q : RawQueue tailq) (held : List Raw)
      → IsBounded q
      → tailq.elements q.head ≡ held
      → IsStep q.limit
          (let (e, r) = shift_first tailq q (first_of held) in (element e, r))
          (obey q.limit held take_first)
  unfolding shift_first obey
  removal q [] good h = record {
    same_answer = refl;
    same_elements = h;
    same_limit = refl;
    still = good;
  }
  removal q (raw ∷ held) good h =
      let e = tailq.elements-remove q.head raw held h in
      record {
        same_answer = refl;
        same_elements = e;
        same_limit = refl;
        still = record {
          bounded = elim good.bounded [
            | inl unlimited ↦ inl unlimited
            | inr le ↦ inr (omega (arith, ap length e, ap length h))
          ];
          small = good.small;
        };
      }

  perform-IsStep :
      (q : RawQueue tailq) (c : Command)
      → IsBounded q
      → IsStep q.limit (perform q c) (obey q.limit (tailq.elements q.head) c)
  unfolding perform obey rawq_add rawq_unshift rawq_shift
  perform-IsStep q (add_last raw) good = rw (room-has_room q good) (
      insertion q (tailq.insert_tail q.head raw) (tailq.elements q.head ++ (raw ∷ [])) good
        (tailq.elements-insert_tail q.head raw)
        (omega (arith, length-append (tailq.elements q.head) (raw ∷ []))) _ refl)
  perform-IsStep q (add_first raw) good = rw (room-has_room q good) (
      insertion q (tailq.insert_head q.head raw) (raw ∷ tailq.elements q.head) good
        (tailq.elements-insert_head q.head raw) (omega arith) _ refl)
  perform-IsStep q take_first good =
      rw (tailq.first-elements q.head) (removal q (tailq.elements q.head) good refl)

  -- Every sequence of insertions and removals on a queue within its limit gives the answers of
  -- the abstract queue, leaves the elements of the abstract queue, and keeps the limit.
  pub perform_all-obey_all :
      (q : RawQueue tailq) (commands : List Command)
      → IsBounded q
      → ((perform_all q commands).0 ≡ (obey_all q.limit (tailq.elements q.head) commands).0)
        × (tailq.elements (perform_all q commands).1.head
            ≡ (obey_all q.limit (tailq.elements q.head) commands).1)
        × IsBounded (perform_all q commands).1
  unfolding perform_all obey_all
  perform_all-obey_all q [] good = (refl, refl, good)
  perform_all-obey_all q (c ∷ commands) good =
      let now = perform-IsStep q c good in
      let later = perform_all-obey_all (perform q c).1 commands now.still in
      let same =
        ap₂ (λ limit held. obey_all limit held commands) now.same_limit now.same_elements in
      (
        ap₂ ◌∷◌ now.same_answer (later.0 ∙ ap (λ result. result.0) same),
        later.1 ∙ ap (λ result. result.1) same,
        later.2,
      )
