-- ===== src/Node/Capsule/Changes.antt =====
-- node/src/codex-capsule-transitions.ts: every accepted call changes the session alone, stores one
-- new turn, or continues one stored turn.
use mathlib.Core.Path.{subst}
use agent_relay.Prelude.{
  sym, ap, ◌⊎◌, inl, inr, Option-cases, String, true, false, not, ◌≡◌, refl, none, some, ◌==◌,
  string_eq, arith, any, Result, ok, err, >>=-eq-ok,
}
use agent_relay.Node.Capsule.Types.{
  Intent, TurnInput, TurnRef, Usage, Outcome, Turn, session_ref_eq,
}
use agent_relay.Node.Capsule.State.{
  assert_same_input, Host, Error, State, lookup, put, host_session, host_turn, is_terminal,
  is_ready, key_of_input, key_of_ref, is_valid_session, require_turn_by_input, require_turn_by_ref,
  require_ready_session,
}
use agent_relay.Node.Capsule.Transitions.{
  claim_session_start, accept_session, reset_unbound_session, new_turn, prepare_turn, claim_start,
  claim_turn_start, bind_turn, accept_turn, request_cancellation, claim_stop, claim_interrupt,
}
use agent_relay.Node.Capsule.Closing.{
  close_after_quiescence, close_interrupted, close_unmatched, record_uncertain_interrupt,
  record_unmatched_start, close_turn, parse_terminal, record_terminal,
}
use agent_relay.Node.Capsule.Calls.{Call, Reply}
use agent_relay.Node.Capsule.Store.{reply_with, transition}
use agent_relay.Node.Capsule.Continues.{
  Continues, claim_start-Continues, bind_turn-Continues, cancel_turn-Continues,
  claim_stop-Continues, close_interrupted-Continues, close_unmatched-Continues,
  close_turn-Continues,
}

pub data Change (host : Host) (s : State) : State → Type 0 where
  session_changed :
      (t : State)
      → t.turns ≡ s.turns
      → host_session t ≡ host_session s
      → (is_valid_session host s.session ≡ true → is_valid_session host t.session ≡ true)
      → (is_ready s.session.phase ≡ true → is_ready t.session.phase ≡ true)
      → Change host s t
  turn_prepared :
      (input : TurnInput) (intent : Intent) (timestamp uuid : String)
      → host.build_intent input ≡ some intent
      → lookup (key_of_input input) s.turns ≡ none
      → is_ready s.session.phase ≡ true
      → (input.session == host_session s) ≡ true
      → any (λ entry. not (is_terminal entry.1.phase)) s.turns ≡ false
      → Change host s (put s (key_of_input input) (new_turn host input intent timestamp uuid))
  turn_continued :
      (key : String) (t u : Turn)
      → lookup key s.turns ≡ some t
      → Continues t u
      → Change host s (put s key u)

pub require_turn_by_input-lookup :
    (host : Host) (s : State) (input : TurnInput) {t : Turn}
    → require_turn_by_input host s input ≡ ok t
    → lookup (key_of_input input) s.turns ≡ some t
unfolding require_turn_by_input
require_turn_by_input-lookup host s input h = ground arith

pub require_turn_by_ref-lookup :
    (s : State) (ref : TurnRef) {t : Turn}
    → require_turn_by_ref s ref ≡ ok t
    → (lookup (key_of_ref ref) s.turns ≡ some t) × (host_turn t ≡ ref)
unfolding require_turn_by_ref
require_turn_by_ref-lookup s ref h = ground arith

-- Inversion of a call by the pair that it returns.
abbrev Changes : (A : Type 0) → Host → State → Result Error (State × A) → Type 0
Changes A host s result = (r : State × A) → result ≡ ok r → Change host s r.0

claim_session_start-Change : (host : Host) (s : State) → Changes _ host s (claim_session_start s)
unfolding claim_session_start is_valid_session
claim_session_start-Change host s r h =
    session_changed r.0 (ground arith) (ground arith) (ground arith) (ground arith)

accept_session-Change :
    (host : Host) (s : State) (id : String) → Changes _ host s (accept_session s id)
unfolding accept_session is_valid_session
accept_session-Change host s id r h =
    session_changed r.0 (ground arith) (ground arith) (ground arith) (ground arith)

reset_unbound_session-Change :
    (host : Host) (s : State) → Changes _ host s (reset_unbound_session s)
unfolding reset_unbound_session is_valid_session
reset_unbound_session-Change host s r h =
    session_changed r.0 (ground arith) (ground arith) (ground arith) (ground arith)

-- The pair returned is the result of the call.
ok-pair {ℓ} :
    {A : Type ℓ} {host : Host} {s t : State} {a : A} {r : State × A}
    → Change host s t
    → ◌≡◌ {A = Result Error (State × A)} (ok (t, a)) (ok r)
    → Change host s r.0
ok-pair {host} {s} {t} {r} change h = subst (Change host s) {x = t} {y = r.0} (ground arith) change

prepare_turn-cases :
    (host : Host) (s : State) (input : TurnInput) (timestamp uuid : String) {r : State × TurnRef}
    → prepare_turn host s input timestamp uuid ≡ ok r
    → (r.0 ≡ s)
      ⊎ ((intent : Intent) × (r.0
            ≡ put s (key_of_input input) (new_turn host input intent timestamp uuid))
          × (host.build_intent input ≡ some intent)
          × (lookup (key_of_input input) s.turns ≡ none)
          × (is_ready s.session.phase ≡ true)
          × ((input.session == host_session s) ≡ true)
          × (any (λ entry. not (is_terminal entry.1.phase)) s.turns ≡ false))
unfolding prepare_turn require_ready_session
prepare_turn-cases host s input timestamp uuid h = elim (Option-cases (host.build_intent input)) [
  | inl too_long ↦ inl (ground arith)
  | inr (intent, built) ↦ elim (Option-cases (lookup (key_of_input input) s.turns)) [
    | inr (existing, stored) ↦ inl (ground arith)
    | inl fresh ↦ inr (intent, ground arith, built, fresh, ground arith, ground arith, ground arith)
  ]
]

prepare_turn-Change :
    (host : Host) (s : State) (input : TurnInput) (timestamp uuid : String)
    → Changes _ host s (prepare_turn host s input timestamp uuid)
prepare_turn-Change host s input timestamp uuid r h =
    elim (prepare_turn-cases host s input timestamp uuid h) [
      | inl same ↦
          session_changed r.0 (ap (λ t. t.turns) same) (ap host_session same) (λ v. rw (same, v))
            (λ v. rw (same, v))
      | inr (intent, made, built, fresh, ready, session, idle) ↦
          subst (Change host s) (sym made)
            (turn_prepared input intent timestamp uuid built fresh ready session idle)
    ]

claim_turn_start-Change :
    (host : Host) (s : State) (input : TurnInput) → Changes _ host s (claim_turn_start host s input)
unfolding claim_turn_start
claim_turn_start-Change host s input r h =
    let (t, found, q) = >>=-eq-ok (require_turn_by_input host s input) _ h in
    ok-pair
      (turn_continued (key_of_input input) t (claim_start t).0
        (require_turn_by_input-lookup host s input found) (claim_start-Continues t))
      q

accept_turn-Change :
    (host : Host) (s : State) (input : TurnInput) (id : String)
    → Changes _ host s (accept_turn host s input id)
unfolding accept_turn
accept_turn-Change host s input id r h =
    let (t, found, h1) = >>=-eq-ok (require_turn_by_input host s input) _ h in
    let (u, bound, q) = >>=-eq-ok (bind_turn t id) _ h1 in
    ok-pair
      (turn_continued (key_of_input input) t u (require_turn_by_input-lookup host s input found)
        (bind_turn-Continues t id bound))
      q

-- The calls that name a turn by its reference.
continued :
    (host : Host) (s : State) (ref : TurnRef) {t u : Turn}
    → require_turn_by_ref s ref ≡ ok t
    → Continues t u
    → Change host s (put s (key_of_ref ref) u)
continued host s ref {t} {u} found c =
    turn_continued (key_of_ref ref) t u (require_turn_by_ref-lookup s ref found).0 c

request_cancellation-Change :
    (host : Host) (s : State) (ref : TurnRef) → Changes _ host s (request_cancellation s ref)
unfolding request_cancellation
request_cancellation-Change host s ref r h =
    let (t, found, q) = >>=-eq-ok (require_turn_by_ref s ref) _ h in
    ok-pair (continued host s ref found (cancel_turn-Continues t)) q

claim_interrupt-Change :
    (host : Host) (s : State) (ref : TurnRef) → Changes _ host s (claim_interrupt s ref)
unfolding claim_interrupt
claim_interrupt-Change host s ref r h =
    let (t, found, h1) = >>=-eq-ok (require_turn_by_ref s ref) _ h in
    let (c, claimed, q) = >>=-eq-ok (claim_stop s.session.codex_thread_id t) _ h1 in
    ok-pair (continued host s ref found (claim_stop-Continues s.session.codex_thread_id t claimed))
      q

close_after_quiescence-Change :
    (host : Host) (close : Turn → Result Error Turn) (s : State) (ref : TurnRef) (input : TurnInput)
    → ((t u : Turn) → close t ≡ ok u → Continues t u)
    → Changes _ host s (close_after_quiescence host close s ref input)
unfolding close_after_quiescence
close_after_quiescence-Change host close s ref input continues r h =
    let (t, found, h1) = >>=-eq-ok (require_turn_by_ref s ref) _ h in
    let (checked, same, h2) = >>=-eq-ok (assert_same_input host t input) _ h1 in
    let (u, closed, q) = >>=-eq-ok (close t) _ h2 in
    ok-pair (continued host s ref found (continues t u closed)) q

record_terminal-Change :
    (host : Host) (s : State) (ref : TurnRef) (used : Usage) (outcome : Outcome)
    → Changes _ host s (record_terminal host s ref used outcome)
unfolding record_terminal
record_terminal-Change host s ref used outcome r h =
    let (parsed, valid, h1) = >>=-eq-ok (parse_terminal host outcome) _ h in
    let (t, found, h2) = >>=-eq-ok (require_turn_by_ref s ref) _ h1 in
    let (u, closed, q) = >>=-eq-ok (close_turn t used parsed) _ h2 in
    ok-pair (continued host s ref found (close_turn-Continues t used parsed closed)) q

reply_with-Change :
    {A : Type 0} (host : Host) (s : State) (reply : A → Reply) (result : Result Error (State × A))
    → Changes A host s result
    → Changes Reply host s (reply_with reply result)
unfolding reply_with
reply_with-Change host s reply (ok q) changes r h = ok-pair (changes q refl) h
reply_with-Change host s reply (err e) changes r h = cc

-- Every call that succeeds makes one of the changes.
pub transition-Change :
    (host : Host) (s : State) (call : Call) (r : State × Reply)
    → transition host s call ≡ ok r
    → Change host s r.0
unfolding transition record_uncertain_interrupt record_unmatched_start
transition-Change host s Call.claim_session_start =
    reply_with-Change host s _ _ (claim_session_start-Change host s)
transition-Change host s (Call.accept_session id) =
    reply_with-Change host s _ _ (accept_session-Change host s id)
transition-Change host s Call.reset_unbound_session =
    reply_with-Change host s _ _ (reset_unbound_session-Change host s)
transition-Change host s (Call.prepare_turn input timestamp uuid) =
    reply_with-Change host s _ _ (prepare_turn-Change host s input timestamp uuid)
transition-Change host s (Call.claim_turn_start input) =
    reply_with-Change host s _ _ (claim_turn_start-Change host s input)
transition-Change host s (Call.accept_turn input id) =
    reply_with-Change host s _ _ (accept_turn-Change host s input id)
transition-Change host s (Call.request_cancellation ref) =
    reply_with-Change host s _ _ (request_cancellation-Change host s ref)
transition-Change host s (Call.claim_interrupt ref) =
    reply_with-Change host s _ _ (claim_interrupt-Change host s ref)
transition-Change host s (Call.record_uncertain_interrupt ref input) =
    reply_with-Change host s _ _ (
      close_after_quiescence-Change host close_interrupted s ref input
        (λ t u closed. close_interrupted-Continues t closed))
transition-Change host s (Call.record_unmatched_start ref input) = reply_with-Change host s _ _ (
    close_after_quiescence-Change host close_unmatched s ref input
      (λ t u closed. close_unmatched-Continues t closed))
transition-Change host s (Call.record_terminal ref used outcome) =
    reply_with-Change host s _ _ (record_terminal-Change host s ref used outcome)
