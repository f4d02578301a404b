-- ===== src/Lib.antt =====
-- AgentRelay: two coding agents on different machines work on one shared Mission through a Relay.
--
-- The parts and how they interact. The Relay keeps the Missions of its users: a Mission has two
-- participants, a shared contract, a budget of turns, and commands that verify the result. Work goes
-- to a participant's Node as a delivery, which the Node leases, executes and acknowledges under a
-- fencing token. The completion of a delivery appends coordinator events to the Mission, and the
-- Mission's state is what its events reduce to; Relay and Node compute it by the same functions of
-- the protocol package. On the Node a Capsule keeps the durable record of the turns that one runtime
-- session executes, so that a crash between a request and its answer never sends the request twice, and
-- a bounded queue carries the provider's events to their reader.
--
-- The files.
--   Prelude            conditionals, lists, errors as values, equality as an interface, decimal texts
--   Protocol.Schemas   protocol/src/schemas.ts: the enumerations, and the interface Texts of the checks
--                      of text that the code leaves to zod and to Date.parse
--   Protocol.Records   protocol/src/schemas.ts: artifacts, revisions, messages, evidence, manifests
--   Protocol.Mission   protocol/src/state-machines.ts: transitionMissionStatus
--     Diagram          the status diagram as an indexed data type, and runs of events
--   Protocol.Delivery  protocol/src/state-machines.ts: transitionDeliveryState with its claims and errors
--     Claims, Accepts  which events are authorised in a state, and the state that each gives
--     Invariant, Runs  what holds between transitions, and what holds over sequences of them
--   Protocol.Receipts  protocol/src/delivery-operations.ts: receipts, hasValidStatusPair and
--                      validateOperationReceipt
--     Machine          the receipts against the delivery machine
--   Protocol.Snapshot  protocol/src/schemas.ts: deliverySchema, a delivery as a Node sees it
--   Protocol.Results   protocol/src/delivery-operations.ts: the results of operations and
--                      validateReceiptAgainstDelivery
--   Protocol.Coordinator  protocol/src/mission-coordinator.ts
--     Events, State    the coordinator's events and state, createMissionCoordinatorState and
--                      validateMissionCoordinatorState
--     Apply, Turns, Verify  the handlers applyParticipantsAccepted, applyTurnCompleted,
--                      applyContractAcknowledged, applyVerificationRecorded, applyMissionTerminal
--     Reduce           reduceMissionCoordinatorEvent with findReplay, replayMissionCoordinatorEvents
--     Frame, Pair, Phase, Turning, Scheduling, Missions  who has to move, and the phases of a Mission
--     Completion       the records that a completed Mission holds
--     Contract, Validity  the states that the coordinator's own validation lets through
--     Next             the next event of a Mission
--     Log, Replay      the log of events: replays, conflicts, rebuilding a state
--   Node.Capsule       node/src/codex-capsule-*.ts
--     Types, Stream    the stored structures, and acceptHostEvent (protocol/src/adapter.ts)
--     State            the stored turn and session, their lookup (codex-capsule-records.ts) and the
--                      validation of a state (codex-capsule-state.ts)
--     Transitions, Closing  the functions of codex-capsule-transitions.ts
--     Calls, Store     codex-capsule-store.ts: the calls of the store, mutate, and sequences of calls
--     Continues, Changes, Turns  what one call changes
--     Validity, Once, Runs, Ends  what holds over all calls
--   Node.Queue         node/src/bounded-async-queue.ts: BoundedAsyncQueue with push, close and next
--     Bounds, Retained what the queue retains
--     Calls, Order     sequences of calls, and the order of the values
--   Relay.Errors       relay/src/errors.ts: the symbols of errors
--   Relay.Ledger       relay/src/services/delivery-ledger.ts
--     Row, Receipts    the tables of deliveries and of receipts (relay/src/db/schema.ts), deliveryFromRow
--     Rules, Guards    the assertions, deadlines and receipts; routes and blocks (mission-trust.ts)
--     Operations, Claim, Calls  startDelivery, renewDelivery, releaseDelivery, claimDelivery
--     Requests         claimDelivery and mutateLeaseDelivery whole, with loadReplay
--     Machine, Steps, Claiming, ClaimRuns, Refines  the ledger against the delivery machine, which it
--                      never calls
--     Kept, Fencing    the checks of the table, and lost leases
--     Answers, Answering, Replays  what a request records, and requests that are made again
--   Relay.Missions     a Mission with its events, deliveries and receipts
--     Store            the table of Missions (relay/src/db/schema.ts)
--     Reconcile, Ends  relay/src/services/mission-reconciliation.ts: reconcileMissionInTransaction
--     Targets, Work, Sources, Append  relay/src/services/mission-ledger.ts: deriveDeliveryTargets,
--                      shouldSettleSourceDelivery, assertSourceDelivery and
--                      appendMissionEventInTransaction, which call the coordinator
--     Completion, Complete, Acknowledged, Completed  relay/src/services/delivery-ledger.ts: completeDelivery with
--                      buildCompletionEvents and cancelSupersededSiblings, and what it leaves
--     Evidence         the evidence that a completed verification records
--     Derived, Appended  the deliveries that an event gives rise to, and what an append leaves
--   The Tests modules run the definitions on concrete values.
--
-- Conventions. A state is a record, an operation gives a new state or the error that the source
-- throws. The source mutates a copy of the state (structuredClone) and keeps it only on success, which
-- is what returning a new state does. A map keyed by texts is a list of pairs. Texts compare by their
-- characters and structures part by part (isDeepStrictEqual). Sequence numbers, versions and counts
-- are natural numbers; fencing tokens are decimal texts, as in the source, where BigInt reads them.
--
-- Parameters. Texts (the formats of identifiers and times, Date.parse) and Shapes (the single-field
-- checks of zod's schemas) stand for third-party code and carry no hypotheses. Host gives the digests
-- of a session's and of a turn's input, the prompt built for it (none where its text is too long), the
-- byte length of a text, and the checks of a result's fields. Cross-field checks
-- of the schemas are written out. In the ledger a date is its number of milliseconds, to_iso is
-- toISOString, which Prints takes to give timestamps that are read back as the same date, and a
-- randomUUID is an argument that passes the check of identifiers.
--
-- Fuel. No definition runs on fuel but the printing of a number in decimal, which has as much as the
-- number itself; reading the text back gives the number, so that it is enough. Everything else recurs
-- on a list of events, of calls, of stored turns or of queued values.
--
-- Hypotheses. The theorems about reached Missions take what the code demands of a new Mission: two
-- participants with different identifiers that are not empty, and a budget of at least one turn. The
-- theorems about deliveries start from any state that satisfies the invariant, those about Capsules
-- from any state that the store's own validation accepts.
--
-- Not modelled: of the Relay the routes, the SQL (transactions, locks, queries) and the services other
-- than the delivery ledger, the Mission ledger's append and the reconciliation; of these the replay and the
-- receipt of a completion, the reconciliation around a request, the Mission event that a claim's answer carries, the
-- replay of an append, the derived acceptance, and audit records; the HTTP clients, the
-- processes and sandboxes of the Node, the tools for the users' editors, and the web site. In the
-- Capsule, the text of the prompt, the kinds of events that it does not append, and the times of last
-- change, which every call rewrites, are left out. Messages and details of errors are left out.
pub mod Node
pub mod Prelude
pub mod Protocol
pub mod Relay
