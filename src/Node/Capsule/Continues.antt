-- ===== src/Node/Capsule/Continues.antt =====
-- node/src/codex-capsule-transitions.ts: what every operation on a stored turn keeps.
use agent_relay.Prelude.{
  [], ◌∷◌, ◌++◌, last?, length, ℕ, ◌+◌, ◌≤◌, ◌≡◌, refl, String, true, false, Option, some, List,
  arith, ok,
}
use agent_relay.Node.Capsule.Types.{Usage, Outcome, Phase, Cancellation, Turn, EventKind}
use agent_relay.Node.Capsule.State.{is_terminal, is_valid_phase, is_uncancelled, host_turn}
use agent_relay.Node.Capsule.Transitions.{
  InterruptClaim, claim_start, bind_turn, append_terminal, cancel_turn, claim_stop,
}
use agent_relay.Node.Capsule.Closing.{
  close_interrupted, close_unmatched, usage_unreported, interrupt_lost, start_lost, is_cancelled,
  second_last?, close_turn, replay_terminal_events, second_last?, is_cancelled,
}

-- The starts of a turn that can still be sent to the provider.
abbrev pub starts_left : Turn → ℕ
starts_left t = elim t.phase [ Phase.prepared ↦ 1 | _ ↦ 0 ]

-- The interrupts of a turn that can still be sent.
abbrev pub interrupts_left : Turn → ℕ
interrupts_left t = elim t.cancellation [ Cancellation.interrupt_maybe_sent ↦ 0 | _ ↦ 1 ]

pub record Continues (t u : Turn) : Type 0 where
  pub same_input : u.input ≡ t.input
  pub same_digest : u.input_sha256 ≡ t.input_sha256
  pub same_intent : u.provider_intent ≡ t.provider_intent
  pub keeps_phase : is_valid_phase t ≡ true → is_valid_phase u ≡ true
  pub keeps_end : is_terminal t.phase ≡ true → u ≡ t
  pub starts : starts_left u ≤ starts_left t
  pub interrupts : is_valid_phase t ≡ true → interrupts_left u ≤ interrupts_left t

pub claim_start-Continues : (t : Turn) → Continues t (claim_start t).0
unfolding claim_start is_valid_phase
claim_start-Continues t = ground arith

pub bind_turn-Continues :
    (t : Turn) (id : String) {u : Turn} → bind_turn t id ≡ ok u → Continues t u
unfolding bind_turn is_valid_phase
bind_turn-Continues t id h = ground arith

pub last?-append {ℓ} : {A : Type ℓ} (xs : List A) (y z : A) → last? (xs ++ (y ∷ z ∷ [])) ≡ some z
last?-append [] y z = refl
last?-append (x ∷ []) y z = refl
last?-append (x ∷ w ∷ xs) y z = last?-append (w ∷ xs) y z

pub second_last?-append {ℓ} :
    {A : Type ℓ} (xs : List A) (y z : A) → second_last? (xs ++ (y ∷ z ∷ [])) ≡ some y
unfolding second_last?
second_last?-append [] y z = refl
second_last?-append (x ∷ []) y z = refl
second_last?-append (x ∷ w ∷ []) y z = refl
second_last?-append (x ∷ w ∷ v ∷ xs) y z = second_last?-append (w ∷ v ∷ xs) y z

-- A turn may end cancelled only where a cancellation was asked for.
append_terminal-Continues :
    (t : Turn) (used : Usage) (outcome : Outcome)
    → is_terminal t.phase ≡ false
    → (is_cancelled outcome ≡ true
        → is_valid_phase t ≡ true
        → is_uncancelled t.cancellation ≡ false)
    → Continues t (append_terminal t used outcome)
unfolding append_terminal is_valid_phase
append_terminal-Continues t used outcome live asked = ground (
  arith,
  last?-append t.events
      (record { kind = EventKind.usage used; turn = host_turn t; sequence = length t.events + 1 })
      (record {
        kind = EventKind.terminal outcome;
        turn = host_turn t;
        sequence = length t.events + 2;
      }),
)

pub cancel_turn-Continues : (t : Turn) → Continues t (cancel_turn t)
unfolding cancel_turn is_valid_phase append_terminal
cancel_turn-Continues t = ground (
  arith,
  last?-append t.events
      (record {
        kind = EventKind.usage usage_unreported;
        turn = host_turn t;
        sequence = length t.events + 1;
      })
      (record {
        kind = EventKind.terminal Outcome.cancelled;
        turn = host_turn t;
        sequence = length t.events + 2;
      }),
)

pub claim_stop-Continues :
    (thread : Option String) (t : Turn) {r : Turn × InterruptClaim}
    → claim_stop thread t ≡ ok r
    → Continues t r.0
unfolding claim_stop is_valid_phase
claim_stop-Continues thread t h = ground arith

pub close_interrupted-Continues : (t : Turn) {u : Turn} → close_interrupted t ≡ ok u → Continues t u
unfolding close_interrupted
close_interrupted-Continues t h =
    ground (arith, append_terminal-Continues t usage_unreported interrupt_lost)

pub close_unmatched-Continues : (t : Turn) {u : Turn} → close_unmatched t ≡ ok u → Continues t u
unfolding close_unmatched is_valid_phase
close_unmatched-Continues t h = ground (
  arith,
  append_terminal-Continues t usage_unreported start_lost,
  append_terminal-Continues t usage_unreported Outcome.cancelled,
)

pub close_turn-Continues :
    (t : Turn) (used : Usage) (outcome : Outcome) {u : Turn}
    → close_turn t used outcome ≡ ok u
    → Continues t u
unfolding close_turn is_valid_phase replay_terminal_events
close_turn-Continues t used outcome h = ground (arith, append_terminal-Continues t used outcome)
