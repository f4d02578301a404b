-- ===== src/Node/Capsule/Once.antt =====
-- node/src/codex-capsule-store.ts: what a turn's starts, interrupts and end come to over any calls.
use mathlib.Core.Path.{subst}
use agent_relay.Prelude.{
  ℕ, String, Bool, true, false, ◌&&◌, ◌+◌, ◌≤◌, ◌≡◌, refl, Option, none, some, ◌==◌, string_eq,
  arith, inl, inr, if◌then◌else◌, ok, >>=-eq-ok, Result-cases, beq→eq, Bool-cases,
}
use agent_relay.Node.Capsule.Types.{Intent, TurnInput, TurnRef, Turn}
use agent_relay.Node.Capsule.State.{
  Host, State, lookup, insert, put, host_session, key_of_input, key_of_ref, is_valid_phase,
  is_valid_state, require_turn_by_input, require_turn_by_ref,
}
use agent_relay.Node.Capsule.Transitions.{
  TurnStartClaim, InterruptClaim, new_turn, claim_start, claim_turn_start, claim_stop,
  claim_interrupt,
}
use agent_relay.Node.Capsule.Calls.{Call, Reply}
use agent_relay.Node.Capsule.Store.{reply_with, transition}
use agent_relay.Node.Capsule.Continues.{Continues, starts_left, interrupts_left}
use agent_relay.Node.Capsule.Changes.{
  Change, session_changed, turn_prepared, turn_continued, transition-Change,
  require_turn_by_input-lookup, require_turn_by_ref-lookup,
}
use agent_relay.Node.Capsule.Turns.{lookup-insert, lookup-insert_other, are_valid_turns-lookup}
use agent_relay.Node.Capsule.Validity.{is_valid_state-IsValid}

-- The intent that a reply gives its caller to send to the provider.
abbrev pub start_sent : Reply → Option Intent
start_sent (Reply.turn_claim (TurnStartClaim.send intent)) = some intent
start_sent reply = none

-- The provider's turn that a reply lets its caller interrupt.
abbrev pub interrupt_sent : Reply → Option String
interrupt_sent (Reply.interrupt_claim (InterruptClaim.send thread id)) = some id
interrupt_sent reply = none

abbrev pub is_some {ℓ} : {A : Type ℓ} → Option A → Bool
is_some none = false
is_some (some a) = true

-- Whether a call with its reply lets the start of the key's turn be sent to the provider.
abbrev pub sends_start : String → Call → Option Reply → Bool
sends_start key (Call.claim_turn_start input) (some reply) =
    is_some (start_sent reply) && (key_of_input input == key)
sends_start key call reply = false

-- Whether a call with its reply lets an interrupt of the key's turn be sent.
abbrev pub sends_interrupt : String → Call → Option Reply → Bool
sends_interrupt key (Call.claim_interrupt ref) (some reply) =
    is_some (interrupt_sent reply) && (key_of_ref ref == key)
sends_interrupt key call reply = false

-- What is left of an allowance of one per turn.
abbrev pub left_by : (Turn → ℕ) → Option Turn → ℕ
left_by of_turn none = 1
left_by of_turn (some t) = of_turn t

-- What a call does to the turn of one key.
pub data KeyChange : Option Turn → Option Turn → Type 0 where
  unchanged : (o : Option Turn) → KeyChange o o
  made : (t : Turn) → KeyChange none (some t)
  continued : (t u : Turn) → Continues t u → KeyChange (some t) (some u)

stored_at :
    (s : State) (k key : String) (u : Turn)
    → KeyChange (lookup k s.turns) (some u)
    → KeyChange (lookup key s.turns) (lookup key (insert k u s.turns))
stored_at s k key u change = elim (Bool-cases (k == key)) [
  | inl here ↦
      subst (λ x. KeyChange (lookup x s.turns) (lookup x (insert k u s.turns))) (beq→eq k key here)
        (rw (lookup-insert k u s.turns) change)
  | inr other ↦ rw (lookup-insert_other k key u s.turns other) (unchanged (lookup key s.turns))
]

pub Change-KeyChange :
    (host : Host) (s t : State) (key : String)
    → Change host s t
    → KeyChange (lookup key s.turns) (lookup key t.turns)
Change-KeyChange host s _ key (session_changed t turns ref session ready) =
    rw turns (unchanged (lookup key s.turns))
Change-KeyChange host s _ key
      (turn_prepared input intent timestamp uuid built fresh ready same idle) =
    stored_at s (key_of_input input) key (new_turn host input intent timestamp uuid)
      (rw fresh (made (new_turn host input intent timestamp uuid)))
Change-KeyChange host s _ key (turn_continued k t u stored c) =
    stored_at s k key u (rw stored (continued t u c))

-- A call's effect on the turns left to start, and on the interrupts left.
KeyChange-starts :
    {o p : Option Turn} → KeyChange o p → left_by starts_left p ≤ left_by starts_left o
KeyChange-starts (unchanged o) = ground arith
KeyChange-starts (made t) = ground arith
KeyChange-starts (continued t u c) = c.starts

KeyChange-interrupts :
    {o p : Option Turn}
    → ((t : Turn) → o ≡ some t → is_valid_phase t ≡ true)
    → KeyChange o p
    → left_by interrupts_left p ≤ left_by interrupts_left o
KeyChange-interrupts v (unchanged o) = ground arith
KeyChange-interrupts v (made t) = ground arith
KeyChange-interrupts v (continued t u c) = c.interrupts (v t refl)

claim_start-sends :
    (t : Turn) (intent : Intent)
    → (claim_start t).1 ≡ TurnStartClaim.send intent
    → (starts_left t ≡ 1) × (starts_left (claim_start t).0 ≡ 0)
unfolding claim_start
claim_start-sends t intent h = ground arith

claim_stop-sends :
    (session : Option String) (t : Turn) (claim : InterruptClaim) (id : String) {u : Turn}
    → claim_stop session t ≡ ok (u, claim)
    → interrupt_sent (Reply.interrupt_claim claim) ≡ some id
    → (interrupts_left t ≡ 1) × (interrupts_left u ≡ 0)
unfolding claim_stop
claim_stop-sends session t claim id h sent = ground arith

-- A claimed start uses up the one that was left.
claim_turn_start-sends :
    (host : Host) (s : State) (input : TurnInput) (intent : Intent) (t : State)
    → claim_turn_start host s input ≡ ok (t, TurnStartClaim.send intent)
    → (left_by starts_left (lookup (key_of_input input) s.turns) ≡ 1)
      × (left_by starts_left (lookup (key_of_input input) t.turns) ≡ 0)
unfolding claim_turn_start
claim_turn_start-sends host s input intent t h =
    let (x, found, q) = >>=-eq-ok (require_turn_by_input host s input) _ h in
    let sent : (claim_start x).1 ≡ TurnStartClaim.send intent = ground arith in
    let next : put s (key_of_input input) (claim_start x).0 ≡ t = ground arith in
    let both : (starts_left x ≡ 1) × (starts_left (claim_start x).0 ≡ 0) =
      claim_start-sends x intent sent in
    (
      rw (require_turn_by_input-lookup host s input found) both.0,
      subst (λ y. left_by starts_left (lookup (key_of_input input) y.turns) ≡ 0) next
          (rw (lookup-insert (key_of_input input) (claim_start x).0 s.turns) both.1),
    )

claim_interrupt-sends :
    (s : State) (ref : TurnRef) (claim : InterruptClaim) (id : String) (t : State)
    → claim_interrupt s ref ≡ ok (t, claim)
    → interrupt_sent (Reply.interrupt_claim claim) ≡ some id
    → (left_by interrupts_left (lookup (key_of_ref ref) s.turns) ≡ 1)
      × (left_by interrupts_left (lookup (key_of_ref ref) t.turns) ≡ 0)
unfolding claim_interrupt
claim_interrupt-sends s ref claim id t h sent =
    let (x, found, h1) = >>=-eq-ok (require_turn_by_ref s ref) _ h in
    let (c, claimed, q) = >>=-eq-ok (claim_stop s.session.codex_thread_id x) _ h1 in
    let next : put s (key_of_ref ref) c.0 ≡ t = ground arith in
    let stopped : claim_stop s.session.codex_thread_id x ≡ ok (c.0, claim) = ground arith in
    let both : (interrupts_left x ≡ 1) × (interrupts_left c.0 ≡ 0) =
      claim_stop-sends s.session.codex_thread_id x claim id stopped sent in
    (
      rw (require_turn_by_ref-lookup s ref found).0 both.0,
      subst (λ y. left_by interrupts_left (lookup (key_of_ref ref) y.turns) ≡ 0) next
          (rw (lookup-insert (key_of_ref ref) c.0 s.turns) both.1),
    )

abbrev pub one_if : Bool → ℕ
one_if b = if b then 1 else 0

transition-starts_left :
    (host : Host) (s : State) (call : Call) (key : String) (r : State × Reply)
    → transition host s call ≡ ok r
    → left_by starts_left (lookup key r.0.turns) ≤ left_by starts_left (lookup key s.turns)
transition-starts_left host s call key r h =
    KeyChange-starts (Change-KeyChange host s r.0 key (transition-Change host s call r h))

transition-start_sent :
    (host : Host) (s : State) (input : TurnInput) (r : State × Reply) (intent : Intent)
    → transition host s (Call.claim_turn_start input) ≡ ok r
    → start_sent r.1 ≡ some intent
    → (left_by starts_left (lookup (key_of_input input) s.turns) ≡ 1)
      × (left_by starts_left (lookup (key_of_input input) r.0.turns) ≡ 0)
unfolding transition reply_with
transition-start_sent host s input r intent h sent =
    claim_turn_start-sends host s input intent r.0 (ground arith)

transition-interrupt_sent :
    (host : Host) (s : State) (ref : TurnRef) (r : State × Reply) (id : String)
    → transition host s (Call.claim_interrupt ref) ≡ ok r
    → interrupt_sent r.1 ≡ some id
    → (left_by interrupts_left (lookup (key_of_ref ref) s.turns) ≡ 1)
      × (left_by interrupts_left (lookup (key_of_ref ref) r.0.turns) ≡ 0)
unfolding transition reply_with
transition-interrupt_sent host s ref r id h sent = elim (Result-cases (claim_interrupt s ref)) [
  | inl (e, fails) ↦ ground arith
  | inr (p, found) ↦ ground (arith, claim_interrupt-sends s ref p.1 id p.0)
]

transition-interrupts_left :
    (host : Host) (s : State) (call : Call) (key : String) (r : State × Reply)
    → is_valid_state host s ≡ true
    → transition host s call ≡ ok r
    → left_by interrupts_left (lookup key r.0.turns) ≤ left_by interrupts_left (lookup key s.turns)
transition-interrupts_left host s call key r v h =
    KeyChange-interrupts
      (λ t stored.
        (are_valid_turns-lookup host (host_session s) key t s.turns
          (is_valid_state-IsValid host s v).turns stored).4)
      (Change-KeyChange host s r.0 key (transition-Change host s call r h))

quiet : {m n : ℕ} → m ≤ n → 0 + m ≤ n
quiet h = omega arith

-- A send for one key, and what is left for another.
spend {ℓ} :
    {A : Type ℓ} (sent : Option A) (k key : String) (before after : String → ℕ)
    → after key ≤ before key
    → ((a : A) → sent ≡ some a → (before k ≡ 1) × (after k ≡ 0))
    → one_if (is_some sent && (k == key)) + after key ≤ before key
spend none k key before after fewer used = ground arith
spend (some a) k key before after fewer used = elim (Bool-cases (k == key)) [
  | inl here ↦ rw here (
      subst (λ x. 1 + after x ≤ before x) (beq→eq k key here)
        (omega (arith, (used a refl).0, (used a refl).1)))
  | inr other ↦ rw other (ground arith)
]

-- A call uses up what it sends.
pub transition-starts :
    (host : Host) (s : State) (call : Call) (key : String) (r : State × Reply)
    → transition host s call ≡ ok r
    → one_if (sends_start key call (some r.1)) + left_by starts_left (lookup key r.0.turns)
      ≤ left_by starts_left (lookup key s.turns)
transition-starts host s Call.claim_session_start key r h =
    quiet (transition-starts_left host s Call.claim_session_start key r h)
transition-starts host s (Call.accept_session id) key r h =
    quiet (transition-starts_left host s (Call.accept_session id) key r h)
transition-starts host s Call.reset_unbound_session key r h =
    quiet (transition-starts_left host s Call.reset_unbound_session key r h)
transition-starts host s (Call.prepare_turn input timestamp uuid) key r h =
    quiet (transition-starts_left host s (Call.prepare_turn input timestamp uuid) key r h)
transition-starts host s (Call.claim_turn_start input) key r h =
    spend (start_sent r.1) (key_of_input input) key (λ k. left_by starts_left (lookup k s.turns))
      (λ k. left_by starts_left (lookup k r.0.turns))
      (transition-starts_left host s (Call.claim_turn_start input) key r h)
      (λ intent sent. transition-start_sent host s input r intent h sent)
transition-starts host s (Call.accept_turn input id) key r h =
    quiet (transition-starts_left host s (Call.accept_turn input id) key r h)
transition-starts host s (Call.request_cancellation ref) key r h =
    quiet (transition-starts_left host s (Call.request_cancellation ref) key r h)
transition-starts host s (Call.claim_interrupt ref) key r h =
    quiet (transition-starts_left host s (Call.claim_interrupt ref) key r h)
transition-starts host s (Call.record_uncertain_interrupt ref input) key r h =
    quiet (transition-starts_left host s (Call.record_uncertain_interrupt ref input) key r h)
transition-starts host s (Call.record_unmatched_start ref input) key r h =
    quiet (transition-starts_left host s (Call.record_unmatched_start ref input) key r h)
transition-starts host s (Call.record_terminal ref used outcome) key r h =
    quiet (transition-starts_left host s (Call.record_terminal ref used outcome) key r h)

pub transition-interrupts :
    (host : Host) (s : State) (call : Call) (key : String) (r : State × Reply)
    → is_valid_state host s ≡ true
    → transition host s call ≡ ok r
    → one_if (sends_interrupt key call (some r.1)) + left_by interrupts_left (lookup key r.0.turns)
      ≤ left_by interrupts_left (lookup key s.turns)
transition-interrupts host s Call.claim_session_start key r v h =
    quiet (transition-interrupts_left host s Call.claim_session_start key r v h)
transition-interrupts host s (Call.accept_session id) key r v h =
    quiet (transition-interrupts_left host s (Call.accept_session id) key r v h)
transition-interrupts host s Call.reset_unbound_session key r v h =
    quiet (transition-interrupts_left host s Call.reset_unbound_session key r v h)
transition-interrupts host s (Call.prepare_turn input timestamp uuid) key r v h =
    quiet (transition-interrupts_left host s (Call.prepare_turn input timestamp uuid) key r v h)
transition-interrupts host s (Call.claim_turn_start input) key r v h =
    quiet (transition-interrupts_left host s (Call.claim_turn_start input) key r v h)
transition-interrupts host s (Call.accept_turn input id) key r v h =
    quiet (transition-interrupts_left host s (Call.accept_turn input id) key r v h)
transition-interrupts host s (Call.request_cancellation ref) key r v h =
    quiet (transition-interrupts_left host s (Call.request_cancellation ref) key r v h)
transition-interrupts host s (Call.claim_interrupt ref) key r v h =
    spend (interrupt_sent r.1) (key_of_ref ref) key
      (λ k. left_by interrupts_left (lookup k s.turns))
      (λ k. left_by interrupts_left (lookup k r.0.turns))
      (transition-interrupts_left host s (Call.claim_interrupt ref) key r v h)
      (λ id sent. transition-interrupt_sent host s ref r id h sent)
transition-interrupts host s (Call.record_uncertain_interrupt ref input) key r v h =
    quiet (transition-interrupts_left host s (Call.record_uncertain_interrupt ref input) key r v h)
transition-interrupts host s (Call.record_unmatched_start ref input) key r v h =
    quiet (transition-interrupts_left host s (Call.record_unmatched_start ref input) key r v h)
transition-interrupts host s (Call.record_terminal ref used outcome) key r v h =
    quiet (transition-interrupts_left host s (Call.record_terminal ref used outcome) key r v h)
