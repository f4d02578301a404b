-- ===== src/Relay/Errors.antt =====
-- relay/src/errors.ts: the symbols of the Relay's errors. Messages and details are left out.
pub data ErrorSymbol : Type 0 where
  parse_error invalid_request method_not_found invalid_params unauthenticated forbidden :
      ErrorSymbol
  rate_limited recipient_not_found not_a_participant thread_not_found thread_terminal : ErrorSymbol
  invalid_transition not_authorized_transition state_changed duplicate_idempotency_key : ErrorSymbol
  invalid_intent_payload teammate_blocked node_not_found workspace_not_found : ErrorSymbol
  mission_not_found delivery_not_found internal : ErrorSymbol

-- What an operation throws: a `RelayError`, or the error of a schema that refuses a value.
pub data Error : Type 0 where
  relay_error : ErrorSymbol → Error
  schema_error : Error
