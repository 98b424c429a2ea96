-- ===== src/Queue/Packet/Order.antt =====
-- src/dmr/packetq.c: packets leave the queue in the order in which they came.
use dmrlib.Common.{
  ℕ, zero, suc, ◌≡◌, refl, ap, sym, ◌∙◌, true, List, [], ◌∷◌, ◌++◌, length, replicate, map, All,
}
use dmrlib.Common.Bytes.{append_assoc, append-nil}
use dmrlib.Error.{Status, done, failed}
use dmrlib.Queue.{TailQueue}
use dmrlib.Raw.{Memory}
use dmrlib.Raw.Copy.{byte_copy_same}
use dmrlib.Queue.Packet.{
  Entry, blank, packetq_add, packetq_add_packet, packetq_shift, packetq_shift_packet, shift_entry,
  copy_out, flush_from, packetq_flush,
}

module _ (tailq : TailQueue Entry) where
  flush_from-elements :
      (held : List Entry) (q : tailq.Queue)
      → tailq.elements q ≡ held
      → tailq.elements (flush_from tailq held q) ≡ []
  unfolding flush_from
  flush_from-elements [] q h = h
  flush_from-elements (entry ∷ held) q h =
      flush_from-elements held (tailq.remove q entry) (tailq.elements-remove q entry held h)

  -- A flushed queue is empty.
  packetq_flush-elements : (q : tailq.Queue) → tailq.elements (packetq_flush tailq q) ≡ []
  unfolding packetq_flush
  packetq_flush-elements q = flush_from-elements (tailq.elements q) q refl

module _ (tailq : TailQueue Entry) (memory : Memory) where
  -- Every packet is added, with memory.
  unfoldable pub add_all : tailq.Queue → List (List ℕ) → tailq.Queue
  add_all q [] = q
  add_all q (packet ∷ packets) =
      add_all (packetq_add_packet tailq memory true true q packet).1 packets

  -- `n` packets are shifted into arrays that are zero.
  unfoldable pub shift_all : ℕ → tailq.Queue → List (Status × List ℕ) × tailq.Queue
  shift_all zero q = ([], q)
  shift_all (suc n) q =
      let (ret, packet, next) = packetq_shift_packet tailq memory q (replicate 33 0) in
      let (answers, last) = shift_all n next in ((ret, packet) ∷ answers, last)

  copied : List ℕ → List ℕ
  copied packet = memory.byte_copy (replicate 33 0) 0 packet 33

  copied_same : (packet : List ℕ) → length packet ≡ 33 → copied packet ≡ packet
  unfolding copied
  copied_same packet h = byte_copy_same memory 33 (replicate 33 0) packet refl h

  entry_of : List ℕ → Entry
  unfolding copied
  entry_of packet = record { parsed = record blank { packet = copied packet } }

  add_all-elements :
      (packets : List (List ℕ)) (q : tailq.Queue)
      → tailq.elements (add_all q packets) ≡ tailq.elements q ++ map entry_of packets
  unfolding add_all packetq_add_packet packetq_add entry_of
  add_all-elements [] q = sym (append-nil (tailq.elements q))
  add_all-elements (packet ∷ packets) q =
      add_all-elements packets (tailq.insert_tail q (entry_of packet))
      ∙ ap (λ t. t ++ map entry_of packets) (tailq.elements-insert_tail q (entry_of packet))
      ∙ append_assoc (tailq.elements q) (entry_of packet ∷ []) (map entry_of packets)

  packetq_shift_packet-first :
      (q : tailq.Queue) (packet : List ℕ) (rest : List Entry)
      → length packet ≡ 33
      → tailq.elements q ≡ entry_of packet ∷ rest
      → packetq_shift_packet tailq memory q (replicate 33 0)
        ≡ (done, packet, tailq.remove q (entry_of packet))
  unfolding packetq_shift_packet packetq_shift shift_entry copy_out entry_of copied
  packetq_shift_packet-first q packet rest fits h =
      rw (tailq.empty-elements q, tailq.first-elements q, h)
        (ap (λ t. (done, t, tailq.remove q (entry_of packet)))
          (ap copied (copied_same packet fits) ∙ copied_same packet fits))

  shift_all_next :
      (n : ℕ) (q : tailq.Queue) (answer : Status × List ℕ × tailq.Queue)
      → packetq_shift_packet tailq memory q (replicate 33 0) ≡ answer
      → shift_all (suc n) q
        ≡ ((answer.0, answer.1) ∷ (shift_all n answer.2).0, (shift_all n answer.2).1)
  unfolding shift_all
  shift_all_next n q answer h = ap (λ t. ((t.0, t.1) ∷ (shift_all n t.2).0, (shift_all n t.2).1)) h

  shift_all-elements :
      (packets : List (List ℕ)) (q : tailq.Queue)
      → tailq.elements q ≡ map entry_of packets
      → All (λ packet. length packet ≡ 33) packets
      → ((shift_all (length packets) q).0 ≡ map (λ packet. (done, packet)) packets)
        × ((packetq_shift tailq (shift_all (length packets) q).1).0 ≡ failed)
  unfolding shift_all packetq_shift
  shift_all-elements [] q h sizes = (refl, rw (tailq.empty-elements q, h) refl)
  shift_all-elements (packet ∷ packets) q h sizes =
      let next = tailq.remove q (entry_of packet) in
      let e =
        shift_all_next (length packets) q (done, packet, next)
          (packetq_shift_packet-first q packet (map entry_of packets) sizes.0 h) in
      let later =
        shift_all-elements packets next
          (tailq.elements-remove q (entry_of packet) (map entry_of packets) h) sizes.1 in
      (
        ap (λ t. t.0) e ∙ ap (λ t. (done, packet) ∷ t) later.0,
        ap (λ t. (packetq_shift tailq t.1).0) e ∙ later.1,
      )

  -- Packets of 33 bytes that are added, with memory, to a queue with no elements are shifted in the
  -- same order, after which the queue is empty and a shift fails.
  pub shift_all-add_all :
      (packets : List (List ℕ)) (q : tailq.Queue)
      → tailq.elements q ≡ []
      → All (λ packet. length packet ≡ 33) packets
      → ((shift_all (length packets) (add_all q packets)).0
          ≡ map (λ packet. (done, packet)) packets)
        × ((packetq_shift tailq (shift_all (length packets) (add_all q packets)).1).0 ≡ failed)
  shift_all-add_all packets q fresh sizes =
      shift_all-elements packets (add_all q packets)
        (add_all-elements packets q ∙ ap (λ t. t ++ map entry_of packets) fresh) sizes
