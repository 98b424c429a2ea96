-- ===== src/Queue/Tests.antt =====
-- Concrete queues.
use dmrlib.Common.{ℕ, ◌≡◌, refl, arith, inr, List, [], ◌∷◌, replicate}
use dmrlib.Error.{done, failed}
use dmrlib.Queue.{list_queue}
use dmrlib.Raw.{Raw}
use dmrlib.Raw.Sample.{list_memory}
use dmrlib.Queue.Raw.{RawQueue}
use dmrlib.Queue.Raw.Refine.{
  Command, add_last, add_first, take_first, perform_all, obey_all, IsBounded, perform_all-obey_all,
}
use dmrlib.Queue.Packet.{Entry, packetq_shift}
use dmrlib.Queue.Packet.Order.{add_all, shift_all, shift_all-add_all}

abbrev one_byte : ℕ → Raw
one_byte b = record { buf = b ∷ []; allocated = 1; len = 1 }

abbrev room_for_two : RawQueue (list_queue Raw)
room_for_two = record { head = one_byte 1 ∷ []; limit = 2 }

room_for_two-IsBounded : IsBounded (list_queue Raw) room_for_two
room_for_two-IsBounded = record { bounded = inr (omega arith); small = omega arith }

abbrev commands : List Command
commands = add_last (one_byte 2) ∷ add_last (one_byte 3) ∷ take_first ∷ add_first (one_byte 4) ∷ []

perform_all-obey_all_example :
    ((perform_all (list_queue Raw) room_for_two commands).0
      ≡ (obey_all 2 (one_byte 1 ∷ []) commands).0)
    × ((perform_all (list_queue Raw) room_for_two commands).1.head
        ≡ (obey_all 2 (one_byte 1 ∷ []) commands).1)
    × IsBounded (list_queue Raw) (perform_all (list_queue Raw) room_for_two commands).1
perform_all-obey_all_example =
    perform_all-obey_all (list_queue Raw) room_for_two commands room_for_two-IsBounded

abbrev packets : List (List ℕ)
packets = replicate 33 1 ∷ replicate 33 2 ∷ []

shift_all-add_all_example :
    ((shift_all
        (list_queue Entry)
        list_memory
        2
        (add_all (list_queue Entry) list_memory [] packets)).0
      ≡ (done, replicate 33 1) ∷ (done, replicate 33 2) ∷ [])
    × ((packetq_shift
          (list_queue Entry)
          (shift_all
            (list_queue Entry)
            list_memory
            2
            (add_all (list_queue Entry) list_memory [] packets)).1).0
        ≡ failed)
shift_all-add_all_example =
    shift_all-add_all (list_queue Entry) list_memory packets [] refl (refl, (refl, tt))
