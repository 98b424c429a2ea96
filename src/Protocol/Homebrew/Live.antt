-- ===== src/Protocol/Homebrew/Live.antt =====
-- src/dmr/protocol/homebrew.c: the log-in ends with success when the repeater plays its part.
use dmrlib.Common.{
  ℕ, ◌+◌, ◌≡◌, ◌≢◌, ◌≤◌, refl, ap, ◌∙◌, arith, Bool, true, false, none, some, List, [], ◌∷◌, length,
  length-fill, get_or, get_or_ext, get_or-fill_hit, fill, take, drop, ltb, if-else, ◌==◌,
}
use dmrlib.Common.Bytes.{take_all, length-drop}
use dmrlib.Error.{done}
use dmrlib.Raw.{Memory, raw_new}
use dmrlib.Raw.Contents.{contents}
use dmrlib.Protocol.Homebrew.{
  auth_none, auth_init, auth_config, auth_done, Homebrew, Answer, Wire, send_loop, after_send, rptl,
  homebrew_send_raw, with_raw, homebrew_auth, homebrew_send_config, homebrew_send_key,
  send_key_with,
}
use dmrlib.Protocol.Homebrew.Frames.{
  tagged, key_text, config_text, key_raw, config_raw, login_bytes, key_bytes, length-key_raw,
  config_bytes,
}
use dmrlib.Protocol.Homebrew.Read.{
  ack, received, no_packet, on_ack, on_nonce, on_master, on_frame, homebrew_read,
}
use dmrlib.Protocol.Homebrew.Trace.{link_after}

-- A frame of `n` bytes that begins with "M" and has "ACK" as its fourth to sixth bytes.
pub record IsAck (wire : Wire) (n : ℕ) (buf : List ℕ) : Type 0 where
  pub first : get_or buf 0 0 ≡ 0x4d
  pub size : length buf ≡ n
  pub matches : wire.equal_at buf 3 ack ≡ true

-- The link once the key is sent, as `frame`.
unfoldable pub keyed : Homebrew → List ℕ → List ℕ → List Answer → Homebrew
keyed hb nonce frame answers = record hb {
  nonce = nonce;
  state = auth_init;
  answers = answers;
  sent = frame ∷ hb.sent;
}

module _ (memory : Memory) (wire : Wire) where
  to_master :
      (now n : ℕ) (wanted : Bool) (buf : List ℕ) (hb : Homebrew)
      → IsAck wire n buf
      → 14 ≤ n
      → n ≤ 128
      → homebrew_read memory wire true now wanted (received buf) hb
        ≡ no_packet (on_master memory wire true now buf hb)
  unfolding homebrew_read on_frame
  to_master now n wanted buf hb good low high =
      rw (take_all 128 buf (omega (arith, good.size)), long, good.first) refl
    where
      long : ltb (length buf) 14 ≡ false
      long = rw good.size (ground arith)

  on_short :
      (now : ℕ) (buf : List ℕ) (hb : Homebrew)
      → IsAck wire 14 buf
      → on_master memory wire true now buf hb ≡ on_ack memory wire true now hb.state hb
  unfolding on_master
  on_short now buf hb good = rw (good.size, good.matches) refl

  on_long :
      (now : ℕ) (buf : List ℕ) (hb : Homebrew)
      → IsAck wire 22 buf
      → on_master memory wire true now buf hb ≡ on_nonce memory wire true hb.state buf hb
  unfolding on_master
  on_long now buf hb good = rw (good.size, good.matches) refl

  -- The nonce of a frame replaces the one of the link.
  nonce_copied :
      (hb : Homebrew) (buf : List ℕ)
      → IsAck wire 22 buf
      → length hb.nonce ≡ 8
      → memory.byte_copy hb.nonce 0 (drop 14 buf) 8 ≡ drop 14 buf
  nonce_copied hb buf good eight =
      memory.byte_copy_fill hb.nonce 0 (drop 14 buf) 8
      ∙ get_or_ext 0 (fill 8 0 (λ i. 0 + i) (λ i. get_or (drop 14 buf) i 0) hb.nonce) (drop 14 buf)
          (omega (arith, long, length-drop 14 buf, good.size, eight))
          (λ i below.
            ap (λ k. get_or (fill 8 0 (λ i. 0 + i) (λ i. get_or (drop 14 buf) i 0) hb.nonce) k 0)
              {x = i} {y = 0 + i} (omega arith)
            ∙ get_or-fill_hit (λ i. 0 + i) (λ i. get_or (drop 14 buf) i 0) 8 0 i 0 hb.nonce
                (omega arith) (omega (arith, long, eight)) (omega (arith, long, eight))
                (λ m lo hi e. omega arith))
    where
      long :
          length (fill 8 0 (λ i. 0 + i) (λ i. get_or (drop 14 buf) i 0) hb.nonce) ≡ length hb.nonce
      long = length-fill (λ i. 0 + i) (λ i. get_or (drop 14 buf) i 0) 8 0 hb.nonce

  read_nonce :
      (now : ℕ) (wanted : Bool) (buf secret : List ℕ) (hb : Homebrew) (answers : List Answer)
      → IsAck wire 22 buf
      → length hb.nonce ≡ 8
      → hb.state ≡ auth_none
      → hb.secret ≡ some secret
      → send_loop hb.answers ≡ some (true, answers)
      → homebrew_read memory wire true now wanted (received buf) hb
        ≡ some (
          done,
          none,
          keyed hb
              (drop 14 buf)
              (contents (key_raw memory wire hb.repeater_id (drop 14 buf) secret))
              answers,
        )
  unfolding on_nonce homebrew_send_key send_key_with with_raw raw_new homebrew_send_raw after_send
      no_packet keyed
  read_nonce now wanted buf secret hb answers good eight start known sends =
      to_master now 22 wanted buf hb good (omega arith) (omega arith)
      ∙ ap no_packet
          (on_long now buf hb good ∙ ap (λ state. on_nonce memory wire true state buf hb) start)
      ∙ rw (nonce_copied hb buf good eight, known, sends) refl

  unfoldable pub configured : Homebrew → List Answer → Homebrew
  configured hb answers = record hb {
    state = auth_config;
    answers = answers;
    sent = contents (config_raw memory wire hb) ∷ hb.sent;
  }

  read_key_accepted :
      (now : ℕ) (wanted : Bool) (buf : List ℕ) (hb : Homebrew) (answers : List Answer)
      → IsAck wire 14 buf
      → hb.state ≡ auth_init
      → send_loop hb.answers ≡ some (true, answers)
      → homebrew_read memory wire true now wanted (received buf) hb
        ≡ some (done, none, configured hb answers)
  unfolding on_ack homebrew_send_config with_raw raw_new homebrew_send_raw after_send no_packet
      configured
  read_key_accepted now wanted buf hb answers good start sends =
      to_master now 14 wanted buf hb good (omega arith) (omega arith)
      ∙ ap no_packet
          (on_short now buf hb good ∙ ap (λ state. on_ack memory wire true now state hb) start)
      ∙ rw sends refl

  read_config_accepted :
      (now : ℕ) (wanted : Bool) (buf : List ℕ) (hb : Homebrew)
      → IsAck wire 14 buf
      → hb.state ≡ auth_config
      → homebrew_read memory wire true now wanted (received buf) hb
        ≡ some (done, none, record hb { last_ping = now; last_pong = now; state = auth_done })
  unfolding on_ack no_packet
  read_config_accepted now wanted buf hb good start =
      to_master now 14 wanted buf hb good (omega arith) (omega arith)
      ∙ ap no_packet
          (on_short now buf hb good ∙ ap (λ state. on_ack memory wire true now state hb) start)

  -- The link once it has read a nonce and two acceptances.
  abbrev pub finished : Homebrew → List ℕ → List ℕ → List Answer → List Answer → ℕ → Homebrew
  finished hb nonce frame a2 a3 now = record (configured (keyed hb nonce frame a2) a3) {
    last_ping = now;
    last_pong = now;
    state = auth_done;
  }

  pub link_after-finished :
      (hb : Homebrew) (secret nonce key config : List ℕ) (a2 a3 : List Answer) (t1 t2 t3 : ℕ)
      (w1 w2 w3 : Bool)
      → length hb.nonce ≡ 8
      → hb.state ≡ auth_none
      → hb.secret ≡ some secret
      → send_loop hb.answers ≡ some (true, a2)
      → send_loop a2 ≡ some (true, a3)
      → IsAck wire 22 nonce
      → IsAck wire 14 key
      → IsAck wire 14 config
      → link_after memory wire hb
          ((t3, w3, received config) ∷ (t2, w2, received key) ∷ (t1, w1, received nonce) ∷ [])
        ≡ some (
            finished hb
              (drop 14 nonce)
              (contents (key_raw memory wire hb.repeater_id (drop 14 nonce) secret))
              a2
              a3
              t3)
  unfolding link_after keyed configured
  link_after-finished hb secret nonce key config a2 a3 t1 t2 t3 w1 w2 w3 eight start known first
        second n k c =
      let frame = contents (key_raw memory wire hb.repeater_id (drop 14 nonce) secret) in
      let one = keyed hb (drop 14 nonce) frame a2 in
      rw
        (
          read_nonce t1 w1 nonce secret hb a2 n eight start known first,
          read_key_accepted t2 w2 key one a3 k refl second,
          read_config_accepted t3 w3 config (configured one a3) c refl,
        )
        refl

  -- The link after the frame that begins a log-in.
  started : Homebrew → List ℕ → List Answer → Homebrew
  started hb secret answers = record hb {
    secret = some secret;
    state = auth_none;
    answers = answers;
    sent = tagged wire rptl hb.repeater_id ∷ hb.sent;
  }

  homebrew_auth-started :
      (hb : Homebrew) (secret : List ℕ) (answers : List Answer)
      → hb.repeater_id ≢ 0
      → send_loop hb.answers ≡ some (true, answers)
      → homebrew_auth memory wire true true hb secret ≡ some (done, started hb secret answers)
  unfolding homebrew_auth with_raw raw_new homebrew_send_raw after_send started
  homebrew_auth-started hb secret answers known sends =
      if-else (hb.repeater_id == 0) _ _ (ground arith)
      ∙ rw (sends, login_bytes memory wire rptl hb.repeater_id refl) refl

  -- With memory, an identifier that is not zero and a nonce of eight bytes, and with a socket that
  -- sends three frames in the end, the start of a log-in succeeds, and the link that reads a nonce
  -- and two acceptances after it is logged in. It has sent the tag "RPTL" with seven digits of the
  -- identifier and a zero byte; then 108 bytes that begin with the tag "RPTK", the same digits and
  -- zero byte, and two digits for each byte of the hash of the nonce that it read and the secret;
  -- then the tag "RPTC" and the texts of the configuration, cut to their fields.
  pub link_after-login :
      (start : Homebrew) (secret nonce key config : List ℕ) (a1 a2 a3 : List Answer) (t1 t2 t3 : ℕ)
      (w1 w2 w3 : Bool)
      → start.repeater_id ≢ 0
      → length start.nonce ≡ 8
      → send_loop start.answers ≡ some (true, a1)
      → send_loop a1 ≡ some (true, a2)
      → send_loop a2 ≡ some (true, a3)
      → IsAck wire 22 nonce
      → IsAck wire 14 key
      → IsAck wire 14 config
      → (hb : Homebrew) × (final : Homebrew) × (key_sent : List ℕ) × (homebrew_auth memory wire true
            true start secret
          ≡ some (done, hb))
        × (link_after memory wire hb
              ((t3, w3, received config) ∷ (t2, w2, received key) ∷ (t1, w1, received nonce) ∷ [])
            ≡ some final)
        × (final.state ≡ auth_done)
        × (final.sent
            ≡ config_text wire (keyed hb (drop 14 nonce) key_sent a2)
              ∷ key_sent
              ∷ tagged wire rptl start.repeater_id
              ∷ start.sent)
        × (length key_sent ≡ 108)
        × (take 76 key_sent ≡ key_text memory wire start.repeater_id (drop 14 nonce) secret)
  unfolding keyed configured started
  link_after-login start secret nonce key config a1 a2 a3 t1 t2 t3 w1 w2 w3 known eight zeroth first
        second n k c =
      let hb = started start secret a1 in
      let frame = contents (key_raw memory wire start.repeater_id (drop 14 nonce) secret) in
      let one = keyed hb (drop 14 nonce) frame a2 in
      (
        hb,
        finished hb (drop 14 nonce) frame a2 a3 t3,
        frame,
        homebrew_auth-started start secret a1 known zeroth,
        link_after-finished hb secret nonce key config a2 a3 t1 t2 t3 w1 w2 w3 eight refl refl first
            second n k c,
        refl,
        ap (λ t. t ∷ one.sent) (config_bytes memory wire one),
        length-key_raw memory wire start.repeater_id (drop 14 nonce) secret,
        key_bytes memory wire start.repeater_id (drop 14 nonce) secret,
      )
