-- ===== src/Relay/Ledger/Guards.antt =====
-- relay/src/services/delivery-ledger.ts and relay/src/services/mission-trust.ts: whether the routes of
-- a Mission are active, and whether its principals block each other.
use agent_relay.Prelude.{
  ℕ, ◌+◌, String, Bool, true, false, not, ◌&&◌, ◌||◌, Option, none, some, List, [], ◌∷◌, map, ◌==◌,
  nat_eq, string_eq, leb, if◌then◌else◌, includes, Result, throw_if,
}
use agent_relay.Protocol.Records.{Participant}
use agent_relay.Relay.Errors.{Error, relay_error, not_authorized_transition, teammate_blocked}

-- A row of the query of `assertMissionRoutingAuthority`.
pub record Route : Type 0 where
  pub participant_agent_id : String
  pub participant_node_id : String
  pub participant_status : String
  pub agent_status : String
  pub node_status : String
  pub workspace_node_id : String
  pub workspace_alias : String
  pub workspace_repository_url : String
  pub workspace_status : String

-- `expectedParticipants.get(agentId)`, where a later participant replaces an earlier one
unfoldable pub expected_participant : List Participant → String → Option Participant
expected_participant [] agent_id = none
expected_participant (p ∷ rest) agent_id = latest (expected_participant rest agent_id)
  where
    latest : Option Participant → Option Participant
    latest (some later) = some later
    latest none = if p.agent_id == agent_id then some p else none

-- `[...new Set(ids)]`, up to its order
unfoldable pub distinct : List String → List String
distinct [] = []
distinct (id ∷ ids) = let rest = distinct ids in if includes ids id then rest else id ∷ rest

unfoldable pub count {ℓ} : {A : Type ℓ} → List A → ℕ
count [] = 0
count (x ∷ xs) = 1 + count xs

abbrev participant_id : Participant → String
participant_id p = p.agent_id

abbrev is_expected : Option Participant → Route → Bool
is_expected none route = false
is_expected (some expected) route =
    route.participant_status == "accepted"
    && route.agent_status == "active"
    && route.node_status == "active"
    && route.workspace_status == "active"
    && route.workspace_node_id == route.participant_node_id
    && route.workspace_alias == expected.workspace_alias
    && route.workspace_repository_url == expected.repository_url

unfoldable pub are_active : List Participant → List Route → Bool
are_active participants [] = true
are_active participants (route ∷ routes) =
    is_expected (expected_participant participants route.participant_agent_id) route
    && are_active participants routes

-- `assertMissionRoutingAuthority`
unfoldable pub assert_routing : List Participant → List Route → Result Error (Unit {0})
assert_routing participants routes =
    throw_if
      (not (
        count routes == count (distinct (map participant_id participants))
        && are_active participants routes))
      (relay_error not_authorized_transition)

-- A row of `agentBlocks` between two of the ids: the one who blocks, and the one who is blocked.
unfoldable pub some_blocked : List String → List (String × String) → Bool
some_blocked ids [] = false
some_blocked ids (block ∷ blocks) =
    (includes ids block.0 && includes ids block.1) || some_blocked ids blocks

-- `assertMissionTrustBoundary`
unfoldable pub assert_trust : List String → List (String × String) → Result Error (Unit {0})
assert_trust principals blocks =
    throw_if (leb 2 (count (distinct principals)) && some_blocked (distinct principals) blocks)
      (relay_error teammate_blocked)

-- `assertDeliveryMissionTrust`
unfoldable pub assert_mission_trust :
    String → List Participant → List (String × String) → Result Error (Unit {0})
assert_mission_trust created_by participants blocks =
    assert_trust (created_by ∷ map participant_id participants) blocks
