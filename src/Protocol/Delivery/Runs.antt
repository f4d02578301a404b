-- ===== src/Protocol/Delivery/Runs.antt =====
-- Sequences of accepted transitions of one delivery (protocol/src/state-machines.ts): fencing of old
-- leases, the budget of attempts, and the final statuses.
use agent_relay.Prelude.{
  ℕ, ◌+◌, ◌≤◌, ◌<◌, ◌≡◌, ◌≢◌, sym, ◌∙◌, Bool, true, false, Option, none, some, arith, List, [], ◌∷◌,
  if◌then◌else◌, Result, ok, ◌>>=◌, >>=-eq-ok,
}
use agent_relay.Prelude.Decimal.{to_decimal, to_decimal-inj}
use agent_relay.Protocol.Schemas.{
  Texts, DeliveryStatus, acknowledged, dead_lettered, delivery_status_eq,
}
use agent_relay.Protocol.Delivery.{State, Event, Claim, Error, is_active, transition_delivery_state}
use agent_relay.Protocol.Delivery.Claims.{IsAuthorised}
use agent_relay.Protocol.Delivery.Accepts.{transition_iff}
use agent_relay.Protocol.Delivery.Invariant.{IsValid, transition-IsValid}

-- The transitions of a list of events, which stops at the first that is refused.
unfoldable pub run : Texts → State → List Event → Result Error State
run texts s [] = ok s
run texts s (e ∷ es) = do t ← transition_delivery_state texts s e; run texts t es

pub run-IsValid :
    (texts : Texts) (s : State) (es : List Event) {t : State}
    → IsValid s
    → run texts s es ≡ ok t
    → IsValid t
unfolding run
run-IsValid texts s [] v h = ground arith
run-IsValid texts s (e ∷ es) v h =
    let (u, p, q) = >>=-eq-ok (transition_delivery_state texts s e) _ h in
    run-IsValid texts u es (transition-IsValid texts s e v p) q

-- The claim by which the holder of a lease acts; `lease` and `cancel` are the Relay's.
abbrev pub owner_claim : Event → Option Claim
owner_claim (Event.renew_lease c x) = some c
owner_claim (Event.start_execution c) = some c
owner_claim (Event.acknowledge c) = some c
owner_claim (Event.release c x) = some c
owner_claim (Event.lease_expired c) = some c
owner_claim _ = none

IsAuthorised-Matches :
    (texts : Texts) (s : State) (e : Event) (c : Claim)
    → owner_claim e ≡ some c
    → IsAuthorised texts s e
    → (is_active s.status ≡ true) × (s.active_fencing_token ≡ some c.fencing_token)
IsAuthorised-Matches texts s (Event.renew_lease d x) c o h = ground arith
IsAuthorised-Matches texts s (Event.start_execution d) c o h = ground arith
IsAuthorised-Matches texts s (Event.acknowledge d) c o h = ground arith
IsAuthorised-Matches texts s (Event.release d x) c o h = ground arith
IsAuthorised-Matches texts s (Event.lease_expired d) c o h = ground arith
IsAuthorised-Matches texts s (Event.lease d x) c o h = cc
IsAuthorised-Matches texts s (Event.cancel d x) c o h = cc

-- In a valid delivery the holder acts only with the token of the current attempt.
owner_token :
    (texts : Texts) (s : State) (e : Event) (c : Claim) {t : State}
    → IsValid s
    → owner_claim e ≡ some c
    → transition_delivery_state texts s e ≡ ok t
    → c.fencing_token ≡ to_decimal s.attempt_count
owner_token texts s e c {t} v o h =
    ground (arith, IsAuthorised-Matches texts s e c o ((transition_iff texts s t e).0 h).0)

-- Once a delivery has been leased again, whoever held the lease before is refused: no renewal,
-- start, acknowledgement, release or expiry that carries an earlier attempt's token is accepted in
-- any state reached later, whatever its lease and time are.
pub run-fences_old_tokens :
    (texts : Texts) (s t : State) (es : List Event) (e : Event) (c : Claim)
    → IsValid s
    → run texts s es ≡ ok t
    → s.attempt_count < t.attempt_count
    → owner_claim e ≡ some c
    → c.fencing_token ≡ s.last_fencing_token
    → (u : State) → transition_delivery_state texts t e ≢ ok u
run-fences_old_tokens texts s t es e c v r lt o same u h = omega (
  arith,
  to_decimal-inj t.attempt_count s.attempt_count
      (sym (owner_token texts t e c (run-IsValid texts s es v r) o h) ∙ same ∙ v.token_counts),
)

abbrev is_lease : Event → Bool
is_lease (Event.lease c x) = true
is_lease _ = false

-- The leases among the events.
abbrev pub leases : List Event → ℕ
leases [] = 0
leases (e ∷ es) = (if is_lease e then 1 else 0) + leases es

transition-attempts :
    (texts : Texts) (s : State) (e : Event) {t : State}
    → transition_delivery_state texts s e ≡ ok t
    → (t.attempt_count ≡ (if is_lease e then 1 else 0) + s.attempt_count)
      × (t.max_attempts ≡ s.max_attempts)
transition-attempts texts s (Event.lease c x) {t} h =
    ground (arith, (transition_iff texts s t (Event.lease c x)).0 h)
transition-attempts texts s e {t} h = ground (arith, ((transition_iff texts s t e).0 h).1)

-- Every accepted lease counts as one attempt and nothing else does, and there are never more
-- attempts than the delivery allows.
pub run-attempts :
    (texts : Texts) (s : State) (es : List Event) {t : State}
    → IsValid s
    → run texts s es ≡ ok t
    → (t.attempt_count ≡ leases es + s.attempt_count) × (t.attempt_count ≤ s.max_attempts)
unfolding run
run-attempts texts s [] v h = ground arith
run-attempts texts s (e ∷ es) v h =
    let (u, p, q) = >>=-eq-ok (transition_delivery_state texts s e) _ h in
    let (count, bound) = run-attempts texts u es (transition-IsValid texts s e v p) q in
    let (one, most) = transition-attempts texts s e p in (omega arith, omega arith)

abbrev pub is_final : DeliveryStatus → Bool
is_final acknowledged = true
is_final DeliveryStatus.cancelled = true
is_final dead_lettered = true
is_final _ = false

-- In an acknowledged, cancelled or dead-lettered delivery every event is refused.
pub final-refuses :
    (texts : Texts) (s : State) (e : Event) (t : State)
    → is_final s.status ≡ true
    → transition_delivery_state texts s e ≢ ok t
unfolding transition_delivery_state
final-refuses texts s e t f h = ground arith

-- From a delivery in a final status no list of events but the empty one is accepted, and that
-- leaves the delivery as it is.
pub run-after_final :
    (texts : Texts) (s : State) (es : List Event) (t : State)
    → is_final s.status ≡ true
    → run texts s es ≡ ok t
    → (es ≡ []) × (t ≡ s)
unfolding run
run-after_final texts s [] t f h = ground arith
run-after_final texts s (e ∷ es) t f h =
    let (u, p, q) = >>=-eq-ok (transition_delivery_state texts s e) _ h in
    absurd (final-refuses texts s e u f p)
