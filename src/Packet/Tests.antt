-- ===== src/Packet/Tests.antt =====
-- Slot types in concrete packets.
use dmrlib.Common.{
  ℕ, ◌≡◌, ◌≢◌, refl, true, false, arith, none, some, List, get_or, length, replicate,
}
use dmrlib.Payload.Sync.{unknown, sync_pattern_decode, closest, bit_diff, sync_bits}
use dmrlib.Packet.{
  ParsedPacket, parsed_as, null, result, slot_type_decode, slot_type_encode, packet_decode,
  write_slot_type,
}
use dmrlib.Packet.RoundTrip.{slot_type_decode-encode}
use dmrlib.Packet.Decode.{
  sync_pattern_decode-write_slot_type, packet_decode_ends, packet_decode-slot_type_encode,
}

slot_type_encode_invalid : slot_type_encode (replicate 33 0) 0 1 ≡ none
unfolding slot_type_encode
slot_type_encode_invalid = refl

packet_decode_no_memory : packet_decode false (replicate 33 0) ≡ null
unfolding packet_decode
packet_decode_no_memory = refl

slot_type_decode-encode_example :
    (sent : List ℕ) × (slot_type_encode (replicate 33 0x10) 1 2 ≡ some sent)
    × (slot_type_decode sent ≡ some (1, 2))
    × (length sent ≡ 33)
    × ((k : ℕ)
        → k ≢ 12
        → k ≢ 13
        → k ≢ 19
        → k ≢ 20
        → get_or sent k 0 ≡ get_or (replicate 33 0x10) k 0)
slot_type_decode-encode_example =
    slot_type_decode-encode (replicate 33 0x10) 1 2 (omega arith) (omega arith) (omega arith)
      (omega arith) (omega arith) (λ q. omega arith)

packet_decode_ends_example :
    (r : ParsedPacket) × (packet_decode true (replicate 33 0x5a) ≡ result r)
packet_decode_ends_example = packet_decode_ends (replicate 33 0x5a) (omega arith)

silent_0x10 : sync_pattern_decode (replicate 33 0x10) ≡ unknown
unfolding sync_pattern_decode closest bit_diff sync_bits
silent_0x10 = refl

packet_decode-slot_type_encode_example :
    (sent : List ℕ) × (slot_type_encode (replicate 33 0x10) 1 2 ≡ some sent)
    × (packet_decode true sent ≡ result (parsed_as sent 0 2 1))
packet_decode-slot_type_encode_example =
    packet_decode-slot_type_encode (replicate 33 0x10) 1 2 (omega arith) (omega arith) (omega arith)
      (omega arith) (omega arith) (λ q. omega arith) silent_0x10

sync_pattern_decode-write_slot_type_example :
    sync_pattern_decode (write_slot_type (replicate 33 0x77) 1 2 3)
    ≡ sync_pattern_decode (replicate 33 0x77)
sync_pattern_decode-write_slot_type_example =
    sync_pattern_decode-write_slot_type (replicate 33 0x77) 1 2 3 (omega arith) (omega arith)
      (omega arith) (omega arith) (omega arith)
