-- ===== src/Node/Queue/Calls.antt =====
-- node/src/bounded-async-queue.ts: the calls of the queue.
use agent_relay.Prelude.{ℕ, Option}

pub data Call {ℓ κ} (T : Type ℓ) (F : Type κ) : Type (ℓ ⊔ κ) where
  push : T → ℕ → Call T F
  close : Option F → Call T F
  next : ℕ → Call T F
