-- ===== src/Protocol/Homebrew/Trace.antt =====
-- src/dmr/protocol/homebrew.c: which frames a link must have received in each state.
use dmrlib.Common.{
  ℕ, ◌≡◌, ◌≢◌, refl, sym, ap, subst, ◌∙◌, Bool, true, Option, none, some, List, [], ◌∷◌,
}
use dmrlib.Raw.{Memory}
use dmrlib.Protocol.Homebrew.{
  AuthState, auth_none, auth_init, auth_config, auth_done, auth_failed, Homebrew, Wire,
}
use dmrlib.Protocol.Homebrew.Read.{Received, Outcome, homebrew_read}
use dmrlib.Protocol.Homebrew.Login.{
  Kind, with_nonce, accepts, refuses, unrelated, next, LeavesLink, kind_received,
  homebrew_read-LeavesLink,
}

-- How a state is reached from the first one, with the last frame first: by a nonce, then one
-- acceptance for the key and one for the configuration, with no refusal since the nonce.
pub data Reached : AuthState → List Kind → Type 0 where
  key_sent : (older : List Kind) → Reached auth_init (with_nonce ∷ older)
  config_sent :
      (older : List Kind) → Reached auth_init older → Reached auth_config (accepts ∷ older)
  logged_in : (older : List Kind) → Reached auth_config older → Reached auth_done (accepts ∷ older)
  still :
      (state : AuthState) (kind : Kind) (older : List Kind)
      → kind ≢ refuses
      → Reached state older
      → Reached state (kind ∷ older)

abbrev pub link_of : Outcome → Option Homebrew
link_of none = none
link_of (some outcome) = some outcome.2

Reached-next :
    (state : AuthState) (kind : Kind) (older : List Kind)
    → (state ≢ auth_none → Reached state older)
    → next state kind ≢ auth_none
    → Reached (next state kind) (kind ∷ older)
unfolding next
Reached-next auth_none with_nonce older h ne = key_sent older
Reached-next auth_none accepts older h ne = absurd (ne refl)
Reached-next auth_none refuses older h ne = absurd (ne refl)
Reached-next auth_none unrelated older h ne = absurd (ne refl)
Reached-next auth_init accepts older h ne = config_sent older (h (λ e. cc))
Reached-next auth_init with_nonce older h ne = still auth_init with_nonce older (λ e. cc) (h ne)
Reached-next auth_init refuses older h ne = absurd (ne refl)
Reached-next auth_init unrelated older h ne = still auth_init unrelated older (λ e. cc) (h ne)
Reached-next auth_config accepts older h ne = logged_in older (h (λ e. cc))
Reached-next auth_config with_nonce older h ne = still auth_config with_nonce older (λ e. cc) (h ne)
Reached-next auth_config refuses older h ne = absurd (ne refl)
Reached-next auth_config unrelated older h ne = still auth_config unrelated older (λ e. cc) (h ne)
Reached-next auth_done accepts older h ne = still auth_done accepts older (λ e. cc) (h ne)
Reached-next auth_done with_nonce older h ne = still auth_done with_nonce older (λ e. cc) (h ne)
Reached-next auth_done refuses older h ne = absurd (ne refl)
Reached-next auth_done unrelated older h ne = still auth_done unrelated older (λ e. cc) (h ne)
Reached-next auth_failed accepts older h ne = still auth_failed accepts older (λ e. cc) (h ne)
Reached-next auth_failed with_nonce older h ne = still auth_failed with_nonce older (λ e. cc) (h ne)
Reached-next auth_failed refuses older h ne = absurd (ne refl)
Reached-next auth_failed unrelated older h ne = still auth_failed unrelated older (λ e. cc) (h ne)

link_of-state :
    (state : AuthState) (outcome : Outcome) (final : Homebrew)
    → LeavesLink state outcome
    → link_of outcome ≡ some final
    → final.state ≡ state
link_of-state state none final h e = cc
link_of-state state (some outcome) final h e =
    let same : outcome.2 ≡ final = cc in ap (λ hb. hb.state) (sym same) ∙ h

module _ (memory : Memory) (wire : Wire) where
  abbrev pub read_next : ℕ × Bool × Received → Option Homebrew → Option Homebrew
  read_next event none = none
  read_next event (some hb) = link_of (homebrew_read memory wire true event.0 event.1 event.2 hb)

  -- The link after calls of the reader with memory, the last call first.
  unfoldable pub link_after : Homebrew → List (ℕ × Bool × Received) → Option Homebrew
  link_after hb [] = some hb
  link_after hb (event ∷ older) = read_next event (link_after hb older)

  unfoldable pub kinds : List (ℕ × Bool × Received) → List Kind
  kinds [] = []
  kinds (event ∷ older) = kind_received memory wire event.2 ∷ kinds older

  step-Reached :
      (event : ℕ × Bool × Received) (older : List (ℕ × Bool × Received)) (middle : Option Homebrew)
      (final : Homebrew)
      → ((hb : Homebrew) → middle ≡ some hb → hb.state ≢ auth_none → Reached hb.state (kinds older))
      → read_next event middle ≡ some final
      → final.state ≢ auth_none
      → Reached final.state (kinds (event ∷ older))
  unfolding kinds
  step-Reached event older none final before h ne = absurd (no_link final h)
    where
      no_link : (final : Homebrew) → none ≡ some final → ⊥
      no_link final h = cc
  step-Reached event older (some hb) final before h ne =
      let taken =
        link_of-state (next hb.state (kind_received memory wire event.2))
          (homebrew_read memory wire true event.0 event.1 event.2 hb) final
          (homebrew_read-LeavesLink memory wire event.0 event.1 event.2 hb) h in
      subst (λ state. Reached state (kind_received memory wire event.2 ∷ kinds older)) (sym taken)
        (Reached-next hb.state (kind_received memory wire event.2) (kinds older) (before hb refl)
          (λ e. ne (taken ∙ e)))

  -- With memory, a link that starts with no log-in and is in another state after calls of the
  -- reader that return has reached that state by a nonce, then one acceptance for the key and one for the
  -- configuration, with no refusal since the nonce.
  pub link_after-Reached :
      (hb : Homebrew) (events : List (ℕ × Bool × Received)) (final : Homebrew)
      → hb.state ≡ auth_none
      → link_after hb events ≡ some final
      → final.state ≢ auth_none
      → Reached final.state (kinds events)
  unfolding link_after
  link_after-Reached hb [] final start h ne =
      let same : hb ≡ final = cc in absurd (ne (ap (λ t. t.state) (sym same) ∙ start))
  link_after-Reached hb (event ∷ older) final start h ne =
      step-Reached event older (link_after hb older) final
        (λ middle e n. link_after-Reached hb older middle start e n) h ne
