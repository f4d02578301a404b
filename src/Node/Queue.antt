-- ===== src/Node/Queue.antt =====
-- node/src/bounded-async-queue.ts: the queue between a producer and its asynchronous readers. A reader
-- is named by a number; what its promise comes to is an answer.
pub mod Bounds
pub mod Calls
pub mod Order
pub mod Retained
pub mod Tests
use agent_relay.Prelude.{
  ℕ, ◌+◌, ◌-◌, Bool, true, false, ◌||◌, Option, none, some, List, [], ◌∷◌, ◌++◌, map, if◌then◌else◌,
  ltb, leb, length, Result, ok, err,
}

-- `QueuedValue`
pub record QueuedValue {ℓ} (T : Type ℓ) : Type ℓ where
  pub value : T
  pub weight : ℕ

pub data Error : Type 0 where
  overflow : Error

-- What a promise of `next` comes to: a value, the end, or the producer's error.
pub data Answer {ℓ κ} (T : Type ℓ) (F : Type κ) : Type (ℓ ⊔ κ) where
  value : T → Answer T F
  ended : Answer T F
  failed : F → Answer T F

-- The state of `BoundedAsyncQueue`, with the error type `F` of its failures.
pub record Queue {ℓ κ} (T : Type ℓ) (F : Type κ) : Type (ℓ ⊔ κ) where
  pub max_values : ℕ
  pub max_weight : ℕ
  pub values : List (QueuedValue T)
  pub waiters : List ℕ
  pub retained_weight : ℕ
  pub closed : Bool
  pub failure : Option F

-- The answers that an operation gives to waiting readers, in order.
abbrev pub Answers {ℓ κ} : Type ℓ → Type κ → Type (ℓ ⊔ κ)
Answers T F = List (ℕ × Answer T F)

module _ {ℓ κ} {T : Type ℓ} {F : Type κ} where
  -- The constructor
  unfoldable pub create : ℕ → ℕ → Queue T F
  create max_values max_weight = record {
    max_values = max_values;
    max_weight = max_weight;
    values = [];
    waiters = [];
    retained_weight = 0;
    closed = false;
    failure = none;
  }

  -- `weight > this.maxWeight - this.#retainedWeight`, which may be negative, so that the retained
  -- weight is added on the other side.
  abbrev pub is_full : Queue T F → ℕ → Bool
  is_full q weight =
      leb q.max_values (length q.values) || ltb q.max_weight (weight + q.retained_weight)

  -- `push`, behind its check that the weight is a natural number
  unfoldable pub push : Queue T F → T → ℕ → Result Error (Queue T F × Answers T F)
  push q x weight = if q.closed then ok (q, []) else elim q.waiters [
    | waiter ∷ rest ↦ ok (record q { waiters = rest }, (waiter, Answer.value x) ∷ [])
    | [] ↦
        if is_full q weight
        then err overflow
        else ok (
          record q {
            values = q.values ++ (record { value = x; weight = weight } ∷ []);
            retained_weight = q.retained_weight + weight;
          },
          [],
        )
  ]

  abbrev pub answer_all : Answer T F → List ℕ → Answers T F
  answer_all answer readers = map (λ reader. (reader, answer)) readers

  -- `close`
  unfoldable pub close : Queue T F → Option F → Queue T F × Answers T F
  close q error = if q.closed then (q, []) else elim error [
    | none ↦ (
      record q { closed = true; failure = none; waiters = [] },
      answer_all Answer.ended q.waiters,
    )
    | some e ↦ (
      record q { closed = true; failure = some e; values = []; retained_weight = 0; waiters = [] },
      answer_all (Answer.failed e) q.waiters,
    )
  ]

  -- `next`, by a reader: answered at once, or put to wait.
  unfoldable pub next : Queue T F → ℕ → Queue T F × Answers T F
  next q reader = elim q.failure [
    | some e ↦ (q, (reader, Answer.failed e) ∷ [])
    | none ↦ elim q.values [
      | x ∷ rest ↦ (
        record q { values = rest; retained_weight = q.retained_weight - x.weight },
        (reader, Answer.value x.value) ∷ [],
      )
      | [] ↦
          if q.closed
          then (q, (reader, Answer.ended) ∷ [])
          else (record q { waiters = q.waiters ++ (reader ∷ []) }, [])
    ]
  ]
