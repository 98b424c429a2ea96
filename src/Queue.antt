-- ===== src/Queue.antt =====
-- The tail queues of include/dmr/queue.h, which the source uses through macros, as an interface.
pub mod Packet
mod Tests
pub mod Raw
use Prim.Native.Nat.{ℕ}
use dmrlib.Common.{
  zero, suc, ◌<◌, ◌≤◌, ◌≡◌, Bool, true, false, Option, none, some, List, [], ◌∷◌, ◌++◌, length, ltb,
  leb, ◌==◌, ◌||◌, if◌then◌else◌, drop, refl, ap, sym,
}

abbrev pub is_empty {ℓ} : {A : Type ℓ} → List A → Bool
is_empty [] = true
is_empty (x ∷ xs) = false

abbrev pub first_of {ℓ} : {A : Type ℓ} → List A → Option A
first_of [] = none
first_of (x ∷ xs) = some x

-- The operations of a queue of pointers and what they do to the elements that `FOREACH` visits.
pub record TailQueue (A : Type 0) : Type 1 where
  pub Queue : Type 0
  pub init : Queue
  pub insert_tail : Queue → A → Queue
  pub insert_head : Queue → A → Queue
  pub remove : Queue → A → Queue
  pub first : Queue → Option A
  pub empty : Queue → Bool
  pub elements : Queue → List A
  pub elements-init : elements init ≡ []
  pub elements-insert_tail :
      (q : Queue) (a : A) → elements (insert_tail q a) ≡ elements q ++ (a ∷ [])
  pub elements-insert_head : (q : Queue) (a : A) → elements (insert_head q a) ≡ a ∷ elements q
  pub elements-remove :
      (q : Queue) (a : A) (rest : List A) → elements q ≡ a ∷ rest → elements (remove q a) ≡ rest
  pub first-elements : (q : Queue) → first q ≡ first_of (elements q)
  pub empty-elements : (q : Queue) → empty q ≡ is_empty (elements q)

-- A queue that is a list.
abbrev pub list_queue : (A : Type 0) → TailQueue A
list_queue A = record {
  Queue = List A;
  init = [];
  insert_tail = λ q a. q ++ (a ∷ []);
  insert_head = λ q a. a ∷ q;
  remove = λ q a. drop 1 q;
  first = first_of;
  empty = is_empty;
  elements = λ q. q;
  elements-init = refl;
  elements-insert_tail = λ q a. refl;
  elements-insert_head = λ q a. refl;
  elements-remove = λ q a rest h. ap (drop 1) h;
  first-elements = λ q. refl;
  empty-elements = λ q. refl;
}
