-- ===== src/Protocol/Homebrew/Tests.antt =====
-- A log-in with a concrete wire, and a packet on it.
use dmrlib.Common.{
  ℕ, ◌+◌, ◌*◌, ◌≡◌, ◌≢◌, refl, ap, ap₂, ◌∙◌, arith, inr, Bool, true, false, ◌&&◌, and-left,
  and-right, ◌==◌, ==_iff, some, List, [], ◌∷◌, map, length, take, drop, replicate, get_or,
}
use dmrlib.Error.{done}
use dmrlib.Raw.Sample.{list_memory}
use dmrlib.Packet.{ParsedPacket}
use dmrlib.Queue.Packet.{blank}
use dmrlib.Protocol.Homebrew.{
  auth_none, auth_done, Homebrew, accepted, again, Wire, send_loop, config_sizes, homebrew_auth,
  rptl,
}
use dmrlib.Protocol.Homebrew.Read.{Received, received, ack, homebrew_parse_dmrd}
use dmrlib.Protocol.Homebrew.Trace.{Reached, kinds, link_after, link_after-Reached}
use dmrlib.Protocol.Homebrew.Live.{
  IsAck, keyed, configured, finished, link_after-finished, link_after-login,
}
use dmrlib.Protocol.Homebrew.Frames.{tagged, key_text, config_text, key_raw}
use dmrlib.Raw.Contents.{contents}
use dmrlib.Protocol.Homebrew.Dmrd.{homebrew_send}
use dmrlib.Protocol.Homebrew.Dmrd.RoundTrip.{IsSame, parse_dmrd-homebrew_send}

abbrev equal : List ℕ → List ℕ → Bool
equal [] [] = true
equal [] (y ∷ ys) = false
equal (x ∷ xs) [] = false
equal (x ∷ xs) (y ∷ ys) = (x == y) && equal xs ys

equal-true : (xs ys : List ℕ) → equal xs ys ≡ true → xs ≡ ys
equal-true [] [] h = refl
equal-true [] (y ∷ ys) h = cc
equal-true (x ∷ xs) [] h = cc
equal-true (x ∷ xs) (y ∷ ys) h =
    ap₂ ◌∷◌ ((==_iff x y).0 (and-left (x == y) _ h)) (equal-true xs ys (and-right (x == y) _ h))

equal_refl : (xs : List ℕ) → equal xs xs ≡ true
equal_refl [] = refl
equal_refl (x ∷ xs) = rw ((==_iff x x).1 refl) (equal_refl xs)

wire : Wire
wire = record {
  equal_at = λ buf o text. equal (take (length text) (drop o buf)) text;
  uint24 = λ buf o. get_or buf o 0 + 256 * get_or buf (o + 1) 0 + 65_536 * get_or buf (o + 2) 0;
  uint32 = λ buf o. get_or buf o 0;
  sha256 = λ bytes. replicate 32 (length bytes);
  id_text = λ id. replicate 8 0x30;
  config_texts = λ hb. map (λ size. replicate size 0x20) config_sizes;
  length-sha256 = λ bytes. refl;
  length-id_text = λ id. omega arith;
  config_texts-AreWide = λ hb. omega arith;
  equal_at_iff = λ buf o text. (
    λ h. equal-true (take (length text) (drop o buf)) text h,
    λ e. ap (λ t. equal t text) e ∙ equal_refl text,
  );
}

abbrev secret : List ℕ
secret = 0x70 ∷ 0x77 ∷ []

-- A link whose socket must be asked twice for the first frame.
abbrev link : Homebrew
link = record {
  repeater_id = 204_001;
  rx_freq = 430;
  tx_freq = 431;
  state = auth_none;
  secret = some (0x70 ∷ 0x77 ∷ []);
  nonce = replicate 8 0;
  last_ping = 0;
  last_pong = 0;
  answers = again ∷ accepted ∷ accepted ∷ accepted ∷ [];
  sent = [];
}

-- "MSTACK" and what follows it.
abbrev mstack : ℕ → List ℕ
mstack n = 0x4d ∷ 0x53 ∷ 0x54 ∷ 0x41 ∷ 0x43 ∷ 0x4b ∷ replicate n 0x31

mstack-IsAck : IsAck wire 14 (mstack 8)
mstack-IsAck = record {
  first = refl;
  size = refl;
  matches = (wire.equal_at_iff (mstack 8) 3 ack).1 refl;
}

nonce-IsAck : IsAck wire 22 (mstack 16)
nonce-IsAck = record {
  first = refl;
  size = refl;
  matches = (wire.equal_at_iff (mstack 16) 3 ack).1 refl;
}

abbrev events : List (ℕ × Bool × Received)
events =
    (30, false, received (mstack 8))
    ∷ (20, false, received (mstack 8))
    ∷ (10, false, received (mstack 16))
    ∷ []

link_after-login_example :
    (hb : Homebrew) × (final : Homebrew) × (key_sent : List ℕ) × (homebrew_auth list_memory wire
        true true link secret
      ≡ some (done, hb))
    × (link_after list_memory wire hb events ≡ some final)
    × (final.state ≡ auth_done)
    × (final.sent
        ≡ config_text wire (keyed hb (replicate 8 0x31) key_sent (accepted ∷ []))
          ∷ key_sent
          ∷ tagged wire rptl 204_001
          ∷ [])
    × (length key_sent ≡ 108)
    × (take 76 key_sent ≡ key_text list_memory wire 204_001 (replicate 8 0x31) secret)
unfolding send_loop
link_after-login_example =
    link_after-login list_memory wire link secret (mstack 16) (mstack 8) (mstack 8)
      (accepted ∷ accepted ∷ []) (accepted ∷ []) [] 10 20 30 false false false (omega arith) refl
      refl refl refl nonce-IsAck mstack-IsAck mstack-IsAck

ready : Homebrew
ready = record link { answers = again ∷ accepted ∷ accepted ∷ [] }

-- The link that has read the events.
final : Homebrew
final =
    finished list_memory wire ready (replicate 8 0x31)
      (contents (key_raw list_memory wire 204_001 (replicate 8 0x31) secret)) (accepted ∷ []) [] 30

link_after-Reached_example : Reached auth_done (kinds list_memory wire events)
unfolding send_loop ready final keyed configured
link_after-Reached_example =
    link_after-Reached list_memory wire ready events final refl
      (link_after-finished list_memory wire ready secret (mstack 16) (mstack 8) (mstack 8)
        (accepted ∷ []) [] 10 20 30 false false false refl refl refl refl refl nonce-IsAck
        mstack-IsAck mstack-IsAck)
      (λ e. absurd (differs e))
  where
    differs : auth_done ≢ auth_none
    differs e = cc

-- A group call with a voice frame.
abbrev voice_packet : ParsedPacket
voice_packet = record blank {
  packet = replicate 33 0x5a;
  ts = 1;
  flco = 1;
  data_type = 0xf1;
  voice_frame = 3;
  sequence = 200;
}

parse_dmrd-homebrew_send_example :
    (frame : List ℕ) × (q : ParsedPacket) × (homebrew_send list_memory true link voice_packet
      ≡ some (done, record link { answers = accepted ∷ accepted ∷ []; sent = frame ∷ [] }))
    × (homebrew_parse_dmrd list_memory wire true frame ≡ (done, some q))
    × IsSame link voice_packet q
unfolding send_loop
parse_dmrd-homebrew_send_example =
    parse_dmrd-homebrew_send list_memory wire link voice_packet (accepted ∷ accepted ∷ [])
      (record {
        slots = omega arith;
        calls = omega arith;
        frames = omega arith;
        types = inr (inr refl);
      })
      (omega arith) refl refl
