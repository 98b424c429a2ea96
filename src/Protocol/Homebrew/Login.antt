-- ===== src/Protocol/Homebrew/Login.antt =====
-- src/dmr/protocol/homebrew.c: the log-in as a state machine.
use dmrlib.Common.{
  ℕ, ◌≡◌, refl, sym, ap, subst, ◌∙◌, arith, inl, inr, Bool, true, false, Bool-cases, Option, none,
  some, List, length, get_or, take, ◌==◌, ltb, if◌then◌else◌, ◌&&◌,
}
use dmrlib.Raw.{Memory, Raw, raw_new}
use dmrlib.Protocol.Homebrew.{
  AuthState, auth_none, auth_init, auth_config, auth_done, auth_failed, Homebrew, Answer, Wire,
  Reply, send_loop, after_send, homebrew_send_raw, with_raw, homebrew_send_config,
  homebrew_send_key, send_key_with,
}
use dmrlib.Protocol.Homebrew.Read.{
  ack, nak, pong, Received, recv_error, received, Outcome, no_packet, on_ack, on_nonce, on_master,
  on_repeater, on_data, on_frame, homebrew_read,
}

-- What a frame means to the log-in.
pub data Kind : Type 0 where
  with_nonce accepts refuses unrelated : Kind

unfoldable pub next : AuthState → Kind → AuthState
next auth_none with_nonce = auth_init
next auth_init accepts = auth_config
next auth_config accepts = auth_done
next state refuses = auth_none
next state kind = state

-- A reply that comes leaves the state.
abbrev Leaves : AuthState → Reply → Type 0
Leaves state none = Unit
Leaves state (some reply) = reply.1.state ≡ state

after_send-Leaves :
    (hb : Homebrew) (raw : Raw) (result : Option (Bool × List Answer))
    → Leaves hb.state (after_send hb raw result)
unfolding after_send
after_send-Leaves hb raw none = tt
after_send-Leaves hb raw (some (true, answers)) = refl
after_send-Leaves hb raw (some (false, answers)) = refl

abbrev pub LeavesLink : AuthState → Outcome → Type 0
LeavesLink state none = Unit
LeavesLink state (some outcome) = outcome.2.state ≡ state

module _ (memory : Memory) (wire : Wire) where
  unfoldable pub kind_of : List ℕ → Kind
  kind_of buf =
      if get_or buf 0 0 == 0x4d
      then (if length buf == 14
          then (if wire.equal_at buf 3 ack
              then accepts
              else (if wire.equal_at buf 3 nak then refuses else unrelated))
          else (if length buf == 22
              then (if wire.equal_at buf 3 ack then with_nonce else unrelated)
              else unrelated))
      else unrelated

  send_config-Leaves :
      (hb : Homebrew) → Leaves auth_config (homebrew_send_config memory wire true hb)
  unfolding homebrew_send_config with_raw raw_new homebrew_send_raw
  send_config-Leaves hb =
      after_send-Leaves (record hb { state = auth_config }) _ (send_loop hb.answers)

  send_key-Leaves :
      (hb : Homebrew) (secret : Option (List ℕ))
      → Leaves auth_init (send_key_with memory wire true hb secret)
  unfolding send_key_with with_raw raw_new homebrew_send_raw
  send_key-Leaves hb none = tt
  send_key-Leaves hb (some secret) =
      after_send-Leaves (record hb { state = auth_init }) _ (send_loop hb.answers)

  on_ack-Leaves :
      (now : ℕ) (hb : Homebrew) (state : AuthState)
      → hb.state ≡ state
      → Leaves (next state accepts) (on_ack memory wire true now state hb)
  unfolding on_ack next
  on_ack-Leaves now hb auth_none h = h
  on_ack-Leaves now hb auth_init h = send_config-Leaves hb
  on_ack-Leaves now hb auth_config h = refl
  on_ack-Leaves now hb auth_done h = h
  on_ack-Leaves now hb auth_failed h = h

  on_nonce-Leaves :
      (buf : List ℕ) (hb : Homebrew) (state : AuthState)
      → hb.state ≡ state
      → Leaves (next state with_nonce) (on_nonce memory wire true state buf hb)
  unfolding on_nonce next homebrew_send_key
  on_nonce-Leaves buf hb auth_none h = send_key-Leaves _ hb.secret
  on_nonce-Leaves buf hb auth_init h = h
  on_nonce-Leaves buf hb auth_config h = h
  on_nonce-Leaves buf hb auth_done h = h
  on_nonce-Leaves buf hb auth_failed h = h

  next-unrelated : (state : AuthState) → next state unrelated ≡ state
  unfolding next
  next-unrelated auth_none = refl
  next-unrelated auth_init = refl
  next-unrelated auth_config = refl
  next-unrelated auth_done = refl
  next-unrelated auth_failed = refl

  next-refuses : (state : AuthState) → next state refuses ≡ auth_none
  unfolding next
  next-refuses auth_none = refl
  next-refuses auth_init = refl
  next-refuses auth_config = refl
  next-refuses auth_done = refl
  next-refuses auth_failed = refl

  on_master-Leaves :
      (now : ℕ) (buf : List ℕ) (hb : Homebrew)
      → (get_or buf 0 0 == 0x4d) ≡ true
      → Leaves (next hb.state (kind_of buf)) (on_master memory wire true now buf hb)
  unfolding on_master kind_of
  on_master-Leaves now buf hb h = rw h (elim (Bool-cases (length buf == 14)) [
    | inl short ↦ rw short (elim (Bool-cases (wire.equal_at buf 3 ack)) [
      | inl same ↦ rw same (on_ack-Leaves now hb hb.state refl)
      | inr differs ↦ rw differs (elim (Bool-cases (wire.equal_at buf 3 nak)) [
        | inl refused ↦ rw refused (sym (next-refuses hb.state))
        | inr other ↦ rw other (sym (next-unrelated hb.state))
      ])
    ])
    | inr long ↦ rw long (elim (Bool-cases (length buf == 22)) [
      | inl nonce ↦ rw nonce (elim (Bool-cases (wire.equal_at buf 3 ack)) [
        | inl same ↦ rw same (on_nonce-Leaves buf hb hb.state refl)
        | inr differs ↦ rw differs (sym (next-unrelated hb.state))
      ])
      | inr other ↦ rw other (sym (next-unrelated hb.state))
    ])
  ])

  no_packet-LeavesLink :
      (state : AuthState) (reply : Reply) → Leaves state reply → LeavesLink state (no_packet reply)
  unfolding no_packet
  no_packet-LeavesLink state none h = h
  no_packet-LeavesLink state (some reply) h = h

  kind_of_other : (buf : List ℕ) → (get_or buf 0 0 == 0x4d) ≡ false → kind_of buf ≡ unrelated
  unfolding kind_of
  kind_of_other buf h = rw h refl

  kind_of_short : (buf : List ℕ) → ltb (length buf) 14 ≡ true → kind_of buf ≡ unrelated
  unfolding kind_of
  kind_of_short buf h = ground arith

  -- What leaves the state is what an unrelated frame does.
  unrelated_leaves :
      (hb : Homebrew) (kind : Kind) → kind ≡ unrelated → hb.state ≡ next hb.state kind
  unrelated_leaves hb kind h = sym (ap (next hb.state) h ∙ next-unrelated hb.state)

  on_repeater-state :
      (now : ℕ) (buf : List ℕ) (hb : Homebrew)
      → (on_repeater memory wire true now buf hb).state ≡ hb.state
  unfolding on_repeater
  on_repeater-state now buf hb =
      elim (Bool-cases ((length buf == 15) && wire.equal_at buf 3 pong)) [
        | inl answer ↦ rw answer refl
        | inr other ↦ rw other refl
      ]

  on_data-LeavesLink :
      (wanted : Bool) (buf : List ℕ) (hb : Homebrew)
      → LeavesLink hb.state (on_data memory wire true wanted buf hb)
  unfolding on_data
  on_data-LeavesLink wanted buf hb = elim (Bool-cases ((length buf == 53) && wanted)) [
    | inl payload ↦ rw payload refl
    | inr other ↦ rw other refl
  ]

  on_frame-LeavesLink :
      (now : ℕ) (wanted : Bool) (buf : List ℕ) (hb : Homebrew)
      → LeavesLink (next hb.state (kind_of buf)) (on_frame memory wire true now wanted buf hb)
  unfolding on_frame
  on_frame-LeavesLink now wanted buf hb = elim (Bool-cases (get_or buf 0 0 == 0x44)) [
    | inl payload ↦ rw payload (
        subst (λ state. LeavesLink state (on_data memory wire true wanted buf hb))
          (unrelated_leaves hb (kind_of buf) (kind_of_other buf (ground arith)))
          (on_data-LeavesLink wanted buf hb))
    | inr rest ↦ rw rest (elim (Bool-cases (get_or buf 0 0 == 0x4d)) [
      | inl master ↦ rw master (
          no_packet-LeavesLink (next hb.state (kind_of buf)) (on_master memory wire true now buf hb)
            (on_master-Leaves now buf hb master))
      | inr other ↦ rw other (elim (Bool-cases (get_or buf 0 0 == 0x52)) [
        | inl repeater ↦ rw repeater (
            on_repeater-state now buf hb
            ∙ unrelated_leaves hb (kind_of buf) (kind_of_other buf other))
        | inr unknown ↦ rw unknown (unrelated_leaves hb (kind_of buf) (kind_of_other buf other))
      ])
    ])
  ]

  unfoldable pub kind_received : Received → Kind
  kind_received recv_error = unrelated
  kind_received (received bytes) = kind_of (take 128 bytes)

  -- With memory, a call of the reader that returns takes the step of the state machine.
  pub homebrew_read-LeavesLink :
      (now : ℕ) (wanted : Bool) (r : Received) (hb : Homebrew)
      → LeavesLink
          (next hb.state (kind_received r))
          (homebrew_read memory wire true now wanted r hb)
  unfolding homebrew_read kind_received
  homebrew_read-LeavesLink now wanted recv_error hb = unrelated_leaves hb unrelated refl
  homebrew_read-LeavesLink now wanted (received bytes) hb =
      elim (Bool-cases (ltb (length (take 128 bytes)) 14)) [
        | inl short ↦
            rw short (
              unrelated_leaves hb (kind_of (take 128 bytes)) (kind_of_short (take 128 bytes) short))
        | inr long ↦ rw long (on_frame-LeavesLink now wanted (take 128 bytes) hb)
      ]
