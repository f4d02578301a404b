-- ===== src/Protocol/Schemas.antt =====
-- protocol/src/schemas.ts: the enumerations of the protocol, and the checks of texts that the code
-- leaves to `zod` and to `Date.parse`, as an interface.
use agent_relay.Prelude.{
  ℕ, String, Bool, true, false, ◌≡◌, ◌↔◌, Option, none, some, List, [], ◌∷◌, arith, Equatable, ◌==◌,
  nat_eq, string_eq, ltb, leb, includes,
}

-- The third-party checks of text. `date_parse` is `Date.parse`, counted from the earliest date; it
-- is `none` where the source gets `NaN`, with which every comparison is false.
pub record Texts : Type 0 where
  pub is_uuid : String → Bool
  pub is_iso_timestamp : String → Bool
  pub date_parse : String → Option ℕ

abbrev pub before_dates : Option ℕ → Option ℕ → Bool
before_dates (some a) (some b) = ltb a b
before_dates (some a) none = false
before_dates none b = false

-- `Date.parse(left) < Date.parse(right)`
abbrev pub date_before : Texts → String → String → Bool
date_before texts left right = before_dates (texts.date_parse left) (texts.date_parse right)

abbrev pub not_after_dates : Option ℕ → Option ℕ → Bool
not_after_dates (some a) (some b) = leb a b
not_after_dates (some a) none = false
not_after_dates none b = false

-- `Date.parse(left) <= Date.parse(right)`
abbrev pub date_not_after : Texts → String → String → Bool
date_not_after texts left right = not_after_dates (texts.date_parse left) (texts.date_parse right)

pub data MissionStatus : Type 0 where
  awaiting_acceptance active verifying blocked completed cancelled expired failed : MissionStatus

pub data DeliveryStatus : Type 0 where
  stored leased executing acknowledged cancelled dead_lettered : DeliveryStatus

pub data DeliveryKind : Type 0 where
  turn verification contract_acknowledgement : DeliveryKind

abbrev pub mission_status_code : MissionStatus → ℕ
mission_status_code awaiting_acceptance = 0
mission_status_code active = 1
mission_status_code verifying = 2
mission_status_code blocked = 3
mission_status_code completed = 4
mission_status_code MissionStatus.cancelled = 5
mission_status_code expired = 6
mission_status_code failed = 7

abbrev pub delivery_status_code : DeliveryStatus → ℕ
delivery_status_code stored = 0
delivery_status_code leased = 1
delivery_status_code executing = 2
delivery_status_code acknowledged = 3
delivery_status_code DeliveryStatus.cancelled = 4
delivery_status_code dead_lettered = 5

pub mission_status_iff :
    (a b : MissionStatus) → ((mission_status_code a == mission_status_code b) ≡ true) ↔ (a ≡ b)
mission_status_iff a b = ground arith

pub delivery_status_iff :
    (a b : DeliveryStatus) → ((delivery_status_code a == delivery_status_code b) ≡ true) ↔ (a ≡ b)
delivery_status_iff a b = ground arith

instance abbrev pub mission_status_eq : Equatable MissionStatus
mission_status_eq = record {
  equal = λ a b. mission_status_code a == mission_status_code b;
  equal_iff = mission_status_iff;
}

instance abbrev pub delivery_status_eq : Equatable DeliveryStatus
delivery_status_eq = record {
  equal = λ a b. delivery_status_code a == delivery_status_code b;
  equal_iff = delivery_status_iff;
}

-- `deliveryCancellationReasonSchema`
abbrev pub cancellation_reasons : List String
cancellation_reasons =
    "mission_cancelled" ∷ "mission_expired" ∷ "mission_failed" ∷ "work_superseded" ∷ "node_revoked"
    ∷ "workspace_revoked" ∷ []

-- `deliveryReleaseClassificationSchema`
abbrev pub release_classifications : List String
release_classifications = "transient" ∷ "permanent" ∷ "policy_denied" ∷ []

unfoldable pub is_cancellation_reason : String → Bool
is_cancellation_reason reason = includes cancellation_reasons reason

unfoldable pub is_release_classification : String → Bool
is_release_classification classification = includes release_classifications classification
