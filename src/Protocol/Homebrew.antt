-- ===== src/Protocol/Homebrew.antt =====
-- src/dmr/protocol/homebrew.c: the state of a link to a repeater and what is sent to log in. The
-- socket is a list of the answers of its next calls; the texts that printf formats give, SHA-256 and
-- the comparison and the integers of common/byte.h are an interface. Set-up of the socket, logging
-- and the checks for NULL are left out.
pub mod Read
pub mod Login
pub mod Trace
pub mod Live
pub mod Frames
pub mod Dmrd
mod Tests
use dmrlib.Common.{
  ℕ, ◌+◌, ◌≤◌, ◌≡◌, ◌↔◌, Bool, true, false, Option, none, some, List, [], ◌∷◌, ◌++◌, take, drop,
  length, ◌==◌, if◌then◌else◌,
}
use dmrlib.Error.{Status, done, failed, invalid_argument, out_of_memory}
use dmrlib.Raw.{Memory, Raw, u64, raw_new, raw_add, raw_add_hex, raw_add_xuint, raw_addf}
use dmrlib.Raw.Contents.{contents}

-- `dmr_homebrew_state`.
pub data AuthState : Type 0 where
  auth_none auth_init auth_config auth_done auth_failed : AuthState

-- How one call of `socket_send` ends: it is repeated on EINVAL and EAGAIN.
pub data Answer : Type 0 where
  accepted again broken : Answer

-- `dmr_homebrew`; `answers` and `sent` are what the socket does and has sent, the last frame first.
pub record Homebrew : Type 0 where
  pub repeater_id : ℕ
  pub rx_freq : ℕ
  pub tx_freq : ℕ
  pub state : AuthState
  pub secret : Option (List ℕ)
  pub nonce : List ℕ
  pub last_ping : ℕ
  pub last_pong : ℕ
  pub answers : List Answer
  pub sent : List (List ℕ)

-- The sizes of the fourteen fields of a configuration.
abbrev pub config_sizes : List ℕ
config_sizes = 8 ∷ 8 ∷ 9 ∷ 9 ∷ 2 ∷ 2 ∷ 8 ∷ 9 ∷ 3 ∷ 20 ∷ 20 ∷ 124 ∷ 40 ∷ 40 ∷ []

-- Each text has at least as many characters as its field.
abbrev pub AreWide : List ℕ → List (List ℕ) → Type 0
AreWide [] texts = Unit
AreWide (size ∷ sizes) [] = ⊥
AreWide (size ∷ sizes) (text ∷ texts) = (size ≤ length text) × AreWide sizes texts

-- What the protocol uses of other code. The formats pad the texts to the sizes of the fields, and
-- SHA-256 gives 32 bytes. `equal_at` is `!byte_cmp(buf + o, text, n)`, with `n` the
-- length of the text.
pub record Wire : Type 0 where
  pub equal_at : List ℕ → ℕ → List ℕ → Bool
  pub uint24 : List ℕ → ℕ → ℕ
  pub uint32 : List ℕ → ℕ → ℕ
  pub sha256 : List ℕ → List ℕ
  pub id_text : ℕ → List ℕ
  pub config_texts : Homebrew → List (List ℕ)
  pub length-sha256 : (bytes : List ℕ) → length (sha256 bytes) ≡ 32
  pub length-id_text : (id : ℕ) → 8 ≤ length (id_text id)
  pub config_texts-AreWide : (hb : Homebrew) → AreWide config_sizes (config_texts hb)
  pub equal_at_iff :
      (buf : List ℕ) (o : ℕ) (text : List ℕ)
      → (equal_at buf o text ≡ true) ↔ (take (length text) (drop o buf) ≡ text)

-- None when the call does not end, or reads through a NULL pointer.
abbrev pub Reply : Type 0
Reply = Option (Status × Homebrew)

-- "RPTL", "RPTC" and "RPTK".
abbrev pub rptl : List ℕ
rptl = 0x52 ∷ 0x50 ∷ 0x54 ∷ 0x4c ∷ []

abbrev pub rptc : List ℕ
rptc = 0x52 ∷ 0x50 ∷ 0x54 ∷ 0x43 ∷ []

abbrev pub rptk : List ℕ
rptk = 0x52 ∷ 0x50 ∷ 0x54 ∷ 0x4b ∷ []

-- The loop that sends: whether it is sent at last, and the answers that are left.
unfoldable pub send_loop : List Answer → Option (Bool × List Answer)
send_loop [] = none
send_loop (again ∷ answers) = send_loop answers
send_loop (accepted ∷ answers) = some (true, answers)
send_loop (broken ∷ answers) = some (false, answers)

unfoldable pub after_send : Homebrew → Raw → Option (Bool × List Answer) → Reply
after_send hb raw none = none
after_send hb raw (some (true, answers)) =
    some (done, record hb { answers = answers; sent = contents raw ∷ hb.sent })
after_send hb raw (some (false, answers)) = some (failed, record hb { answers = answers })

unfoldable pub homebrew_send_raw : Homebrew → Raw → Reply
homebrew_send_raw hb raw = after_send hb raw (send_loop hb.answers)

-- `DMR_ERROR_IF_NULL(raw = dmr_raw_new(...), DMR_ENOMEM)`, then `next`.
unfoldable pub with_raw : Homebrew → Option Raw → (Raw → Reply) → Reply
with_raw hb none next = some (out_of_memory, hb)
with_raw hb (some raw) next = next raw

-- `given` is whether talloc gives memory for new buffers.
module _ (memory : Memory) (wire : Wire) (given : Bool) where
  -- The results of the appends are not looked at.
  unfoldable pub tag_id : List ℕ → ℕ → Raw → Raw
  tag_id tag id raw = (raw_add_xuint memory 8 (raw_add memory raw tag 4).1 (wire.id_text id)).1

  -- `copied` is whether there is memory for the secret.
  unfoldable pub homebrew_auth : Bool → Homebrew → List ℕ → Reply
  homebrew_auth copied hb secret =
      if hb.repeater_id == 0
      then some (invalid_argument, hb)
      else (if copied
          then (let ready = record hb { secret = some secret; state = auth_none } in
              with_raw ready (raw_new given given 12)
                (λ raw. homebrew_send_raw ready (tag_id rptl hb.repeater_id raw)))
          else some (out_of_memory, record hb { secret = none }))

  abbrev is_auth_none : AuthState → Bool
  is_auth_none auth_none = true
  is_auth_none _ = false

  unfoldable pub homebrew_close : Homebrew → Reply
  homebrew_close hb =
      if is_auth_none hb.state
      then some (done, hb)
      else with_raw hb (raw_new given given 12)
          (λ raw. homebrew_send_raw hb (tag_id rptc hb.repeater_id raw))

  unfoldable pub homebrew_send_buf : Homebrew → List ℕ → ℕ → Reply
  homebrew_send_buf hb buf len =
      if len == 0
      then some (done, hb)
      else with_raw hb (raw_new given given len)
          (λ raw. homebrew_send_raw hb (raw_add memory raw buf len).1)

  unfoldable pub add_fields : List ℕ → List (List ℕ) → Raw → Raw
  add_fields [] texts raw = raw
  add_fields (size ∷ sizes) [] raw = add_fields sizes [] (raw_addf memory raw size []).1
  add_fields (size ∷ sizes) (text ∷ texts) raw =
      add_fields sizes texts (raw_addf memory raw size text).1

  unfoldable pub homebrew_send_config : Homebrew → Reply
  homebrew_send_config hb = with_raw hb (raw_new given given 302) (λ raw.
      homebrew_send_raw (record hb { state = auth_config })
        (add_fields config_sizes (wire.config_texts hb) (raw_add memory raw rptc 4).1))

  -- `raw->len += SHA256_DIGEST_LENGTH` follows the append of the digits.
  unfoldable pub key_frame : ℕ → List ℕ → List ℕ → Raw → Raw
  key_frame id nonce secret raw =
      let digits = (raw_add_hex memory (tag_id rptk id raw) (wire.sha256 (nonce ++ secret)) 32).1 in
      record digits { len = u64 (digits.len + 32) }

  unfoldable pub send_key_with : Homebrew → Option (List ℕ) → Reply
  send_key_with hb none = with_raw hb (raw_new given given 76) (λ raw. none)
  send_key_with hb (some secret) = with_raw hb (raw_new given given 76) (λ raw.
      homebrew_send_raw (record hb { state = auth_init })
        (key_frame hb.repeater_id hb.nonce secret raw))

  unfoldable pub homebrew_send_key : Homebrew → Reply
  homebrew_send_key hb = send_key_with hb hb.secret
