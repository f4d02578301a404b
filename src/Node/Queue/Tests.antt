-- ===== src/Node/Queue/Tests.antt =====
-- Tests of the queue (node/src/bounded-async-queue.ts), and the theorems at concrete values.
use agent_relay.Prelude.{String, ◌≡◌, ◌≤◌, refl, false, none, List, [], ◌∷◌, ◌++◌, length}
use agent_relay.Node.Queue.{Queue, create, push, close, next}
use agent_relay.Node.Queue.Calls.{Call}
use agent_relay.Node.Queue.Bounds.{weight_of, IsValid}
use agent_relay.Node.Queue.Order.{perform, taken, run, held, run-order}
use agent_relay.Node.Queue.Retained.{create-IsValid, run-bounded}

-- One reader waits before the first value; the fourth value finds the queue full.
abbrev calls : List (Call String String)
calls =
    Call.next 0
    ∷ Call.push "a" 1
    ∷ Call.push "b" 2
    ∷ Call.push "c" 3
    ∷ Call.push "d" 1
    ∷ Call.next 1
    ∷ Call.close none
    ∷ Call.push "e" 1
    ∷ []

taken_and_given :
    ((run (create 2 5) calls).1 ≡ "a" ∷ "b" ∷ "c" ∷ [])
    × ((run (create 2 5) calls).2 ≡ "a" ∷ "b" ∷ [])
    × (held (run (create 2 5) calls).0.values ≡ "c" ∷ [])
unfolding run perform taken push close next create
taken_and_given = (refl, refl, refl)

abbrev new_queue : Queue String String
new_queue = record {
  max_values = 2;
  max_weight = 5;
  values = [];
  waiters = [];
  retained_weight = 0;
  closed = false;
  failure = none;
}

new_queue-IsValid : IsValid new_queue
unfolding create
new_queue-IsValid = create-IsValid 2 5

run-order_example :
    (rest : List String) × (held new_queue.values ++ (run new_queue calls).1
      ≡ (run new_queue calls).2 ++ rest)
    × ((run new_queue calls).0.failure ≡ none → rest ≡ held (run new_queue calls).0.values)
run-order_example = run-order new_queue calls new_queue-IsValid refl

run-bounded_example :
    (length (run (create 2 5) calls).0.values ≤ 2)
    × (weight_of (run (create 2 5) calls).0.values ≤ 5)
run-bounded_example = run-bounded 2 5 calls
