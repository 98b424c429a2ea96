-- ===== src/Payload/Emb/Tests.antt =====
-- A header in a concrete packet.
use dmrlib.Common.{◌≡◌, arith, true, replicate}
use dmrlib.Payload.Emb.{Emb, emb_decode, emb_encode}
use dmrlib.Payload.Emb.Header.{emb_decode-emb_encode}

abbrev sent : Emb
sent = record { color_code = 9; pi = true; lcss = 2; crc = 0 }

emb_decode-emb_encode_example :
    ((emb_decode (emb_encode (replicate 33 0x5a) sent) sent).0 ≡ true)
    × ((emb_decode (emb_encode (replicate 33 0x5a) sent) sent).1.lcss ≡ 2)
    × ((emb_decode (emb_encode (replicate 33 0x5a) sent) sent).1.color_code ≡ 5)
    × ((emb_decode (emb_encode (replicate 33 0x5a) sent) sent).1.pi ≡ true)
emb_decode-emb_encode_example =
    emb_decode-emb_encode (replicate 33 0x5a) sent sent (omega arith) (omega arith) (omega arith)
