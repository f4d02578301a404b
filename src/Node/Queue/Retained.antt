-- ===== src/Node/Queue/Retained.antt =====
-- node/src/bounded-async-queue.ts: what the queue retains over any calls.
use agent_relay.Prelude.{ℕ, ◌≤◌, ◌≡◌, refl, ap, ◌∙◌, List, [], ◌∷◌, arith, length}
use agent_relay.Node.Queue.{Queue, create, push, close, next}
use agent_relay.Node.Queue.Calls.{Call}
use agent_relay.Node.Queue.Bounds.{weight_of, IsValid}
use agent_relay.Node.Queue.Order.{perform, run, perform-IsValid}

module _ {ℓ κ} {T : Type ℓ} {F : Type κ} where
  pub create-IsValid :
      (max_values max_weight : ℕ) → IsValid (create {T = T} {F = F} max_values max_weight)
  unfolding create
  create-IsValid max_values max_weight = ground arith

  perform-max :
      (q : Queue T F) (call : Call T F)
      → ((perform q call).0.max_values ≡ q.max_values)
        × ((perform q call).0.max_weight ≡ q.max_weight)
  unfolding perform push close next
  perform-max q (Call.push x weight) = (ground arith, ground arith)
  perform-max q (Call.close error) = (ground arith, ground arith)
  perform-max q (Call.next reader) = (ground arith, ground arith)

  run-IsValid :
      (q : Queue T F) (calls : List (Call T F))
      → IsValid q
      → IsValid (run q calls).0
        × ((run q calls).0.max_values ≡ q.max_values)
        × ((run q calls).0.max_weight ≡ q.max_weight)
  unfolding run
  run-IsValid q [] v = (v, refl, refl)
  run-IsValid q (call ∷ calls) v =
      let (w, count, weight) = run-IsValid (perform q call).0 calls (perform-IsValid q call v) in
      (w, count ∙ (perform-max q call).0, weight ∙ (perform-max q call).1)

  bounds_of :
      (q : Queue T F) (max_values max_weight : ℕ)
      → IsValid q
      → q.max_values ≡ max_values
      → q.max_weight ≡ max_weight
      → (length q.values ≤ max_values) × (weight_of q.values ≤ max_weight)
  bounds_of q max_values max_weight v c w =
      (omega (arith, v.few, c), omega (arith, v.light, v.weighed, w))

  create-max :
      (q : Queue T F) (max_values max_weight : ℕ)
      → q ≡ create max_values max_weight
      → (q.max_values ≡ max_values) × (q.max_weight ≡ max_weight)
  unfolding create
  create-max q max_values max_weight h = (ap (λ p. p.max_values) h, ap (λ p. p.max_weight) h)

  -- Over any calls on a new queue, whatever their order and however many are refused, the values that
  -- it retains are at most as many, and at most as heavy together, as it was made for.
  pub run-bounded :
      (max_values max_weight : ℕ) (calls : List (Call T F))
      → (length (run (create max_values max_weight) calls).0.values ≤ max_values)
        × (weight_of (run (create max_values max_weight) calls).0.values ≤ max_weight)
  run-bounded max_values max_weight calls =
      let (v, count, weight) =
        run-IsValid (create max_values max_weight) calls (create-IsValid max_values max_weight) in
      bounds_of (run (create max_values max_weight) calls).0 max_values max_weight v
        (count ∙ (create-max (create max_values max_weight) max_values max_weight refl).0)
        (weight ∙ (create-max (create max_values max_weight) max_values max_weight refl).1)
