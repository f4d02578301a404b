-- ===== src/Node/Queue/Bounds.antt =====
-- node/src/bounded-async-queue.ts: the bounds, and the order of values over any calls.
use agent_relay.Prelude.{
  ℕ, ◌+◌, ◌≤◌, ◌≡◌, true, Option, List, [], ◌∷◌, ◌++◌, arith, length, length-append, ok, ◌⊎◌,
}
use agent_relay.Node.Queue.{QueuedValue, Queue, Answers, push, close, next}

abbrev pub weight_of {ℓ} : {T : Type ℓ} → List (QueuedValue T) → ℕ
weight_of [] = 0
weight_of (x ∷ xs) = x.weight + weight_of xs

weight_of-append {ℓ} :
    {T : Type ℓ} (xs ys : List (QueuedValue T)) → weight_of (xs ++ ys) ≡ weight_of xs + weight_of ys
weight_of-append [] ys = omega arith
weight_of-append (x ∷ xs) ys = omega (arith, weight_of-append xs ys)

-- What the queue holds in memory is within its bounds and weighed right, no value waits while a reader
-- waits, and a closed queue keeps no reader waiting.
pub record IsValid {ℓ κ} {T : Type ℓ} {F : Type κ} (q : Queue T F) : Type (ℓ ⊔ κ) where
  pub few : length q.values ≤ q.max_values
  pub light : q.retained_weight ≤ q.max_weight
  pub weighed : q.retained_weight ≡ weight_of q.values
  pub one_side : (q.values ≡ []) ⊎ (q.waiters ≡ [])
  pub none_left : q.closed ≡ true → q.waiters ≡ []

module _ {ℓ κ} {T : Type ℓ} {F : Type κ} where
  pub push-IsValid :
      (q : Queue T F) (x : T) (weight : ℕ) (r : Queue T F × Answers T F)
      → IsValid q
      → push q x weight ≡ ok r
      → IsValid r.0
  unfolding push
  push-IsValid q x weight r v h = ground (
    arith,
    weight_of-append q.values (record { value = x; weight = weight } ∷ []),
    length-append q.values (record { value = x; weight = weight } ∷ []),
  )

  pub close-IsValid : (q : Queue T F) (error : Option F) → IsValid q → IsValid (close q error).0
  unfolding close
  close-IsValid q error v = ground arith

  pub next-IsValid : (q : Queue T F) (reader : ℕ) → IsValid q → IsValid (next q reader).0
  unfolding next
  next-IsValid q reader v = ground arith
