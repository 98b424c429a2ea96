-- ===== src/Queue/Packet.antt =====
-- src/dmr/packetq.c: the queue of parsed packets. The checks for NULL are left out.
pub mod Order
use dmrlib.Common.{
  ℕ, Bool, true, false, Option, none, some, List, [], ◌∷◌, ◌==◌, replicate, if◌then◌else◌,
}
use dmrlib.Error.{Status, done, failed, out_of_memory}
use dmrlib.Queue.{TailQueue}
use dmrlib.Raw.{Memory}
use dmrlib.Packet.{ParsedPacket}

-- `dmr_packetq_entry`.
pub record Entry : Type 0 where
  pub parsed : ParsedPacket

-- What `talloc_zero` gives for a packet; `parsed` is then set to false.
abbrev pub blank : ParsedPacket
blank = record {
  packet = replicate 33 0;
  ts = 0;
  flco = 0;
  src_id = 0;
  dst_id = 0;
  repeater_id = 0;
  data_type = 0;
  color_code = 0;
  sequence = 0;
  stream_id = 0;
  voice_frame = 0;
  parsed = false;
}

-- The loop of `dmr_packetq_foreach`: the callback gives an `int` and changes its data.
unfoldable pub foreach_from {ℓ} : {S : Type ℓ} → List Entry → (ParsedPacket → S → ℕ × S) → S → ℕ × S
foreach_from [] cb userdata = (0, userdata)
foreach_from (entry ∷ rest) cb userdata =
    let (ret, next) = cb entry.parsed userdata in
    let later = foreach_from rest cb next in if ret == 0 then later else (ret, next)

module _ (tailq : TailQueue Entry) where
  open tailq use {Queue, init, insert_tail, remove, first, empty, elements}

  -- `given` is whether talloc gives memory, here and below.
  unfoldable pub packetq_new : Bool → Option Queue
  packetq_new given = if given then some init else none

  unfoldable pub packetq_add : Bool → Queue → ParsedPacket → Status × Queue
  packetq_add given q parsed =
      if given then (done, insert_tail q (record { parsed = parsed })) else (out_of_memory, q)

  -- `copied` is whether there is memory for the packet and `given` for the entry.
  unfoldable pub packetq_add_packet : Memory → Bool → Bool → Queue → List ℕ → Status × Queue
  packetq_add_packet memory copied given q packet =
      if copied
      then packetq_add given q (record blank { packet = memory.byte_copy blank.packet 0 packet 33 })
      else (out_of_memory, q)

  -- With the packet that is stored through the pointer, if one is.
  unfoldable pub shift_entry : Queue → Option Entry → Status × Option ParsedPacket × Queue
  shift_entry q none = (failed, none, q)
  shift_entry q (some e) = (done, some e.parsed, remove q e)

  unfoldable pub packetq_shift : Queue → Status × Option ParsedPacket × Queue
  packetq_shift q = if empty q then (failed, none, q) else shift_entry q (first q)

  unfoldable pub copy_out :
      Memory → List ℕ → Status × Option ParsedPacket × Queue → Status × List ℕ × Queue
  copy_out memory packet_out (ret, none, q) = (ret, packet_out, q)
  copy_out memory packet_out (ret, some parsed, q) =
      (ret, memory.byte_copy packet_out 0 parsed.packet 33, q)

  unfoldable pub packetq_shift_packet : Memory → Queue → List ℕ → Status × List ℕ × Queue
  packetq_shift_packet memory q packet_out = copy_out memory packet_out (packetq_shift q)

  unfoldable pub flush_from : List Entry → Queue → Queue
  flush_from [] q = q
  flush_from (entry ∷ rest) q = flush_from rest (remove q entry)

  unfoldable pub packetq_flush : Queue → Queue
  packetq_flush q = flush_from (elements q) q

  unfoldable pub packetq_foreach {ℓ} : {S : Type ℓ} → Queue → (ParsedPacket → S → ℕ × S) → S → ℕ × S
  packetq_foreach q cb userdata =
      if empty q then (0, userdata) else foreach_from (elements q) cb userdata

  unfoldable pub packetq_foreach_packet {ℓ} :
      {S : Type ℓ} → Queue → (List ℕ → S → ℕ × S) → S → ℕ × S
  packetq_foreach_packet q cb userdata =
      if empty q then (0, userdata) else foreach_from (elements q) (λ p. cb p.packet) userdata
