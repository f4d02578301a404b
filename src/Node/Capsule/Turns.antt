-- ===== src/Node/Capsule/Turns.antt =====
-- node/src/codex-capsule-state.ts: the stored turns by their keys, and the validity of a state.
use agent_relay.Prelude.{
  ℕ, String, true, false, not, ◌+◌, ◌≡◌, refl, ap, Option, some_in, none, some, List, [], ◌∷◌, ◌==◌,
  string_eq, arith, any, beq_refl, beq→eq, if◌then◌else◌,
}
use agent_relay.Node.Capsule.Types.{SessionRef, Intent, Turn, session_ref_eq, intent_eq}
use agent_relay.Node.Capsule.State.{
  Host, lookup, insert, is_terminal, key_of_input, is_valid_phase, active_turns, are_valid_turns,
}

abbrev pub Turns : Type 0
Turns = List (String × Turn)

pub lookup-insert : (key : String) (t : Turn) (ts : Turns) → lookup key (insert key t ts) ≡ some t
unfolding lookup insert
lookup-insert key t [] = grind (arith, beq_refl key)
lookup-insert key t (entry ∷ ts) = grind (arith, beq_refl key, lookup-insert key t ts)

pub lookup-insert_other :
    (key other : String) (t : Turn) (ts : Turns)
    → (key == other) ≡ false
    → lookup other (insert key t ts) ≡ lookup other ts
unfolding lookup insert
lookup-insert_other key other t [] h = ground arith
lookup-insert_other key other t (entry ∷ ts) h =
    grind (arith, lookup-insert_other key other t ts h, beq→eq entry.0 key)

-- Storing a turn again changes nothing.
pub insert-insert :
    (key : String) (t : Turn) (ts : Turns) → insert key t (insert key t ts) ≡ insert key t ts
unfolding insert
insert-insert key t [] = grind (arith, beq_refl key)
insert-insert key t (entry ∷ ts) = grind (arith, beq_refl key, insert-insert key t ts)

abbrev pub weight : Turn → ℕ
weight t = if is_terminal t.phase then 0 else 1

pub active_turns-insert :
    (key : String) (t u : Turn) (ts : Turns)
    → lookup key ts ≡ some t
    → active_turns (insert key u ts) + weight t ≡ active_turns ts + weight u
unfolding active_turns insert lookup
active_turns-insert key t u [] h = ground arith
active_turns-insert key t u (entry ∷ ts) h = ground (arith, active_turns-insert key t u ts)

pub active_turns-insert_new :
    (key : String) (u : Turn) (ts : Turns)
    → lookup key ts ≡ none
    → active_turns (insert key u ts) ≡ active_turns ts + weight u
unfolding active_turns insert lookup
active_turns-insert_new key u [] h = ground arith
active_turns-insert_new key u (entry ∷ ts) h = ground (arith, active_turns-insert_new key u ts)

pub active_turns-idle :
    (ts : Turns) → any (λ entry. not (is_terminal entry.1.phase)) ts ≡ false → active_turns ts ≡ 0
unfolding active_turns
active_turns-idle [] h = refl
active_turns-idle (entry ∷ ts) h = ground (arith, active_turns-idle ts)

some_in-some : (o : Option Intent) (intent : Intent) → some_in o intent ≡ true → o ≡ some intent
some_in-some none intent h = cc
some_in-some (some other) intent h = ap some (beq→eq other intent h)

-- What a single stored turn has to satisfy.
abbrev pub IsValidTurn : Host → SessionRef → String → Turn → Type 0
IsValidTurn host session key t =
    (key ≡ key_of_input t.input)
    × (t.input_sha256 ≡ host.digest t.input)
    × (t.input.session ≡ session)
    × (host.build_intent t.input ≡ some t.provider_intent)
    × (is_valid_phase t ≡ true)

pub are_valid_turns-lookup :
    (host : Host) (session : SessionRef) (key : String) (t : Turn) (ts : Turns)
    → are_valid_turns host session ts ≡ true
    → lookup key ts ≡ some t
    → IsValidTurn host session key t
unfolding are_valid_turns lookup
are_valid_turns-lookup host session key t [] v h = ground arith
are_valid_turns-lookup host session key t (entry ∷ ts) v h = grind (
  arith,
  are_valid_turns-lookup host session key t ts,
  beq→eq entry.0 key,
  beq→eq entry.0 (key_of_input entry.1.input),
  beq→eq entry.1.input_sha256 (host.digest entry.1.input),
  beq→eq entry.1.input.session session,
  some_in-some (host.build_intent entry.1.input) entry.1.provider_intent,
)

pub are_valid_turns-insert :
    (host : Host) (session : SessionRef) (key : String) (t : Turn) (ts : Turns)
    → are_valid_turns host session ts ≡ true
    → IsValidTurn host session key t
    → are_valid_turns host session (insert key t ts) ≡ true
unfolding are_valid_turns insert
are_valid_turns-insert host session key t [] v w = grind (
  arith,
  beq_refl (key_of_input t.input),
  beq_refl (host.digest t.input),
  beq_refl session,
  beq_refl t.provider_intent,
)
are_valid_turns-insert host session key t (entry ∷ ts) v w = grind (
  arith,
  are_valid_turns-insert host session key t ts,
  beq_refl (key_of_input t.input),
  beq_refl (host.digest t.input),
  beq_refl session,
  beq_refl t.provider_intent,
)
