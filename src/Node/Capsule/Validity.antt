-- ===== src/Node/Capsule/Validity.antt =====
-- node/src/codex-capsule-store.ts: the check of the new state, before it is stored, and the calls.
use agent_relay.Prelude.{
  ◌≢◌, Bool, String, true, false, ◌≤◌, ◌≡◌, refl, sym, ◌∙◌, some, [], ◌∷◌, ◌==◌, string_eq, nat_eq,
  arith, length, leb, not, ◌&&◌, ok, Result, throw_if, ◌>>=◌, ◌>>◌, Result-cases, ap, inl, inr,
  beq→eq,
}
use agent_relay.Node.Capsule.Types.{SessionRef, TurnInput, Intent, Turn, session_ref_eq}
use agent_relay.Node.Capsule.State.{
  Host, State, lookup, host_session, is_ready, key_of_input, is_valid_phase, is_valid_session,
  active_turns, are_valid_turns, Error, schema_error, turn_limit, have_valid_events,
  is_consistent_state, is_valid_state,
}
use agent_relay.Node.Capsule.Transitions.{new_turn}
use agent_relay.Node.Capsule.Calls.{Call, Reply}
use agent_relay.Node.Capsule.Store.{transition, mutate, perform}
use agent_relay.Node.Capsule.Continues.{Continues}
use agent_relay.Node.Capsule.Changes.{
  Change, session_changed, turn_prepared, turn_continued, transition-Change,
}
use agent_relay.Node.Capsule.Turns.{
  Turns, weight, IsValidTurn, are_valid_turns-lookup, are_valid_turns-insert, active_turns-insert,
  active_turns-insert_new, active_turns-idle,
}

-- The parts of `validateCodexCapsuleState`.
pub record IsValid (host : Host) (s : State) : Type 0 where
  pub session : is_valid_session host s.session ≡ true
  pub turns : are_valid_turns host (host_session s) s.turns ≡ true
  pub one_active : active_turns s.turns ≤ 1
  pub bound : is_ready s.session.phase ≡ false → s.turns ≡ []

pub is_consistent_state-IsValid :
    (host : Host) (s : State) → is_consistent_state host s ≡ true → IsValid host s
unfolding is_consistent_state
is_consistent_state-IsValid host s h = record {
  session = ground arith;
  turns = ground arith;
  one_active = ground arith;
  bound = λ r. empty_of s.turns (ground arith);
}
  where
    empty_of : (ts : Turns) → (length ts == 0) ≡ true → ts ≡ []
    empty_of [] e = refl
    empty_of (t ∷ ts) e = ground arith

pub IsValid-is_consistent_state :
    (host : Host) (s : State) → IsValid host s → is_consistent_state host s ≡ true
unfolding is_consistent_state
IsValid-is_consistent_state host s v = ground (arith, v.session, v.turns, v.one_active, v.bound)

insert-nonempty : (key : String) (t u : Turn) (ts : Turns) → lookup key ts ≡ some t → ts ≢ []
unfolding lookup
insert-nonempty key t u ts h e = ground arith

new_turn-IsValidTurn :
    (host : Host) (session : SessionRef) (input : TurnInput) (intent : Intent)
    (timestamp uuid : String)
    → host.build_intent input ≡ some intent
    → (input.session == session) ≡ true
    → IsValidTurn host session (key_of_input input) (new_turn host input intent timestamp uuid)
unfolding new_turn is_valid_phase
new_turn-IsValidTurn host session input intent timestamp uuid built h =
    (refl, refl, beq→eq input.session session h, built, refl)

Continues-IsValidTurn :
    (host : Host) (session : SessionRef) (key : String) (t u : Turn)
    → Continues t u
    → IsValidTurn host session key t
    → IsValidTurn host session key u
Continues-IsValidTurn host session key t u c (k, d, s, i, p) = (
  k ∙ ap key_of_input (sym c.same_input),
  c.same_digest ∙ d ∙ ap host.digest (sym c.same_input),
  ap (λ input. input.session) c.same_input ∙ s,
  ap host.build_intent c.same_input ∙ i ∙ ap some (sym c.same_intent),
  c.keeps_phase p,
)

Continues-weight : (t u : Turn) → Continues t u → weight u ≤ weight t
Continues-weight t u c = ground (arith, c.keeps_end)

pub Change-IsValid : (host : Host) (s t : State) → Change host s t → IsValid host s → IsValid host t
Change-IsValid host s _ (session_changed t turns ref session ready) v = record {
  session = session v.session;
  turns = rw (turns, ref) v.turns;
  one_active = rw turns v.one_active;
  bound = ground (arith, v.bound);
}
Change-IsValid host s _ (turn_prepared input intent timestamp uuid built fresh ready same idle) v =
    record {
      session = v.session;
      turns =
          are_valid_turns-insert host (host_session s) (key_of_input input)
            (new_turn host input intent timestamp uuid) s.turns v.turns
            (new_turn-IsValidTurn host (host_session s) input intent timestamp uuid built same);
      one_active = grind (
        arith,
        active_turns-insert_new (key_of_input input) (new_turn host input intent timestamp uuid)
            s.turns fresh,
        active_turns-idle s.turns idle,
      );
      bound = ground arith;
    }
Change-IsValid host s _ (turn_continued key t u stored c) v = record {
  session = v.session;
  turns = are_valid_turns-insert host (host_session s) key u s.turns v.turns (
      Continues-IsValidTurn host (host_session s) key t u c
        (are_valid_turns-lookup host (host_session s) key t s.turns v.turns stored));
  one_active =
      omega
        (arith, active_turns-insert key t u s.turns stored, Continues-weight t u c, v.one_active);
  bound = λ r. absurd (insert-nonempty key t u s.turns stored (v.bound r));
}

pub transition-is_consistent_state :
    (host : Host) (s : State) (call : Call) (r : State × Reply)
    → is_consistent_state host s ≡ true
    → transition host s call ≡ ok r
    → is_consistent_state host r.0 ≡ true
transition-is_consistent_state host s call r v succeeds = IsValid-is_consistent_state host r.0 (
    Change-IsValid host s r.0 (transition-Change host s call r succeeds)
      (is_consistent_state-IsValid host s v))

-- What of the check before a state is stored can refuse the outcome of a call on a valid state.
abbrev pub check_limits : Host → State × Reply → Result Error (State × Reply)
check_limits host r = do
  throw_if (not (leb (length r.0.turns) turn_limit && have_valid_events host r.0.turns))
      schema_error
  ok r

-- From a valid state, the store's call is the transition, its error included, and of the check before
-- the new state is stored only two parts can refuse it: the limit of 200 turns, and each turn's events,
-- of which there must be one and which are replayed as a stream with its limits. The others (the
-- digests, the session's binding, each turn's key, session, intent and phase, at most one turn that has
-- not ended, no turn before the session is ready) refuse nothing.
pub mutate-transition :
    (host : Host) (s : State) (call : Call)
    → is_valid_state host s ≡ true
    → mutate host s call ≡ (transition host s call >>= check_limits host)
unfolding mutate is_valid_state
mutate-transition host s call v = elim (Result-cases (transition host s call)) [
  | inl (e, fails) ↦ rw fails refl
  | inr (r, succeeds) ↦
      rw (succeeds, transition-is_consistent_state host s call r (ground arith) succeeds)
        (ap (λ b. throw_if (not b) schema_error >> ok r)
          (without (leb (length r.0.turns) turn_limit) (have_valid_events host r.0.turns)))
]
  where
    without : (a b : Bool) → (a && true && b) ≡ (a && b)
    without a b = ground arith

pub is_valid_state-IsValid :
    (host : Host) (s : State) → is_valid_state host s ≡ true → IsValid host s
unfolding is_valid_state
is_valid_state-IsValid host s v = is_consistent_state-IsValid host s (ground arith)

-- A call that fails leaves the state, and one that succeeds is a valid change.
pub perform-is_valid_state :
    (host : Host) (s : State) (call : Call)
    → is_valid_state host s ≡ true
    → is_valid_state host (perform host s call).0 ≡ true
unfolding perform mutate
perform-is_valid_state host s call v = ground arith
