-- ===== src/Node/Capsule/Runs.antt =====
-- node/src/codex-capsule-store.ts: any calls on a Capsule, one after the other.
use agent_relay.Prelude.{
  ◌⊎◌, ℕ, String, Bool, true, false, ◌+◌, ◌≤◌, ◌≡◌, Option, none, some, List, [], ◌∷◌, string_eq,
  arith, inl, inr, if◌then◌else◌, ok, Result-cases, Bool-cases,
}
use agent_relay.Node.Capsule.Types.{Turn}
use agent_relay.Node.Capsule.State.{Host, State, lookup, is_terminal, is_valid_state}
use agent_relay.Node.Capsule.Calls.{Call, Reply}
use agent_relay.Node.Capsule.Store.{transition, mutate, perform, run}
use agent_relay.Node.Capsule.Continues.{starts_left, interrupts_left}
use agent_relay.Node.Capsule.Changes.{transition-Change}
use agent_relay.Node.Capsule.Validity.{perform-is_valid_state}
use agent_relay.Node.Capsule.Once.{
  sends_start, sends_interrupt, left_by, one_if, KeyChange, unchanged, made, continued,
  Change-KeyChange, transition-starts, transition-interrupts,
}

abbrev pub count : (Call → Option Reply → Bool) → List Call → List (Option Reply) → ℕ
count test [] replies = 0
count test (call ∷ calls) [] = 0
count test (call ∷ calls) (reply ∷ replies) =
    (if test call reply then 1 else 0) + count test calls replies

perform-cases :
    (host : Host) (s : State) (call : Call)
    → ((perform host s call).0 ≡ s) × ((perform host s call).1 ≡ none)
      ⊎ (r : State × Reply) × (transition host s call ≡ ok r)
        × ((perform host s call).0 ≡ r.0)
        × ((perform host s call).1 ≡ some r.1)
unfolding perform mutate
perform-cases host s call = elim (Result-cases (transition host s call)) [
  | inl (e, fails) ↦ inl (ground arith)
  | inr (r, succeeds) ↦ elim (Bool-cases (is_valid_state host r.0)) [
    | inl valid ↦ inr (r, succeeds, ground arith, ground arith)
    | inr refused ↦ inl (ground arith)
  ]
]

no_start : (key : String) (call : Call) → sends_start key call none ≡ false
no_start key call = ground arith

no_interrupt : (key : String) (call : Call) → sends_interrupt key call none ≡ false
no_interrupt key call = ground arith

perform-starts :
    (host : Host) (s : State) (call : Call) (key : String)
    → one_if (sends_start key call (perform host s call).1)
        + left_by starts_left (lookup key (perform host s call).0.turns)
      ≤ left_by starts_left (lookup key s.turns)
perform-starts host s call key = elim (perform-cases host s call) [
  | inl (same, silent) ↦ rw (same, silent, no_start key call) (omega arith)
  | inr (r, succeeds, next, reply) ↦ rw (next, reply) (transition-starts host s call key r succeeds)
]

perform-interrupts :
    (host : Host) (s : State) (call : Call) (key : String)
    → is_valid_state host s ≡ true
    → one_if (sends_interrupt key call (perform host s call).1)
        + left_by interrupts_left (lookup key (perform host s call).0.turns)
      ≤ left_by interrupts_left (lookup key s.turns)
perform-interrupts host s call key v = elim (perform-cases host s call) [
  | inl (same, silent) ↦ rw (same, silent, no_interrupt key call) (omega arith)
  | inr (r, succeeds, next, reply) ↦
      rw (next, reply) (transition-interrupts host s call key r v succeeds)
]

run-starts :
    (host : Host) (s : State) (calls : List Call) (key : String)
    → count (sends_start key) calls (run host s calls).1
        + left_by starts_left (lookup key (run host s calls).0.turns)
      ≤ left_by starts_left (lookup key s.turns)
unfolding run
run-starts host s [] key = omega arith
run-starts host s (call ∷ calls) key =
    omega (arith, perform-starts host s call key, run-starts host (perform host s call).0 calls key)

run-interrupts :
    (host : Host) (s : State) (calls : List Call) (key : String)
    → is_valid_state host s ≡ true
    → count (sends_interrupt key) calls (run host s calls).1
        + left_by interrupts_left (lookup key (run host s calls).0.turns)
      ≤ left_by interrupts_left (lookup key s.turns)
unfolding run
run-interrupts host s [] key v = omega arith
run-interrupts host s (call ∷ calls) key v = omega (
  arith,
  perform-interrupts host s call key v,
  run-interrupts host (perform host s call).0 calls key (perform-is_valid_state host s call v),
)

left_by-starts : (o : Option Turn) → left_by starts_left o ≤ 1
left_by-starts o = ground arith

left_by-interrupts : (o : Option Turn) → left_by interrupts_left o ≤ 1
left_by-interrupts o = ground arith

-- Over any sequence of calls on a valid Capsule, whatever their order and however many fail, the
-- start of the turn of one execution key is handed out for sending at most once, and so is its
-- interrupt.
pub run-sends_once :
    (host : Host) (s : State) (calls : List Call) (key : String)
    → is_valid_state host s ≡ true
    → (count (sends_start key) calls (run host s calls).1 ≤ 1)
      × (count (sends_interrupt key) calls (run host s calls).1 ≤ 1)
run-sends_once host s calls key v = (
  omega (arith, run-starts host s calls key, left_by-starts (lookup key s.turns)),
  omega (arith, run-interrupts host s calls key v, left_by-interrupts (lookup key s.turns)),
)

KeyChange-terminal :
    {o p : Option Turn} (t : Turn)
    → KeyChange o p
    → o ≡ some t
    → is_terminal t.phase ≡ true
    → p ≡ some t
KeyChange-terminal t (unchanged o) h e = h
KeyChange-terminal t (made u) h e = cc
KeyChange-terminal t (continued u w c) h e = ground (arith, c.keeps_end)

-- A turn that has ended keeps its record, its input, its binding and its events, over any calls; the
-- time of its last change, which every call rewrites, is not part of the record here.
pub run-terminal :
    (host : Host) (s : State) (calls : List Call) (key : String) (t : Turn)
    → lookup key s.turns ≡ some t
    → is_terminal t.phase ≡ true
    → lookup key (run host s calls).0.turns ≡ some t
unfolding run
run-terminal host s [] key t h e = h
run-terminal host s (call ∷ calls) key t h e =
    run-terminal host (perform host s call).0 calls key t
      (elim (perform-cases host s call) [
        | inl (same, silent) ↦ rw same h
        | inr (r, succeeds, next, reply) ↦ rw next (
            KeyChange-terminal t
              (Change-KeyChange host s r.0 key (transition-Change host s call r succeeds)) h e)
      ])
      e
