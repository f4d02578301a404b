-- ===== src/Protocol/Coordinator/Pair.antt =====
-- The two participants of a Mission: what the helpers of protocol/src/mission-coordinator.ts do on a
-- list of two.
use agent_relay.Prelude.{
  String, true, false, ◌≡◌, ◌⊎◌, inl, inr, refl, [], ◌∷◌, arith, ◌==◌, string_eq, beq_refl, ok,
}
use agent_relay.Protocol.Coordinator.Events.{set_size, has_unique_values}
use agent_relay.Protocol.Coordinator.State.{same_string_set}
use agent_relay.Protocol.Coordinator.Apply.{other_of}

-- Two different participants, neither with an empty name.
pub record IsPair (a b : String) : Type 0 where
  pub distinct : (a == b) ≡ false
  pub distinct_back : (b == a) ≡ false
  pub named_first : (a == "") ≡ false
  pub named_second : (b == "") ≡ false

-- `p` is one of the two and `q` is the other.
abbrev pub Others : String → String → String → String → Type 0
Others a b p q = ((p ≡ a) × (q ≡ b)) ⊎ ((p ≡ b) × (q ≡ a))

pub other_of_lem : (a b p q : String) → IsPair a b → Others a b p q → other_of (a ∷ b ∷ []) p ≡ ok q
unfolding other_of
other_of_lem a b p q w (inl (e, f)) = rw e (rw f (ground (arith, beq_refl a)))
other_of_lem a b p q w (inr (e, f)) = rw e (rw f (ground (arith, beq_refl b)))

-- One participant is not yet both.
pub same_string_set-one : (a b p : String) → same_string_set (p ∷ []) (a ∷ b ∷ []) ≡ false
unfolding same_string_set
same_string_set-one a b p = refl

pub same_string_set-both :
    (a b p q : String)
    → IsPair a b
    → Others a b p q
    → same_string_set (q ∷ p ∷ []) (a ∷ b ∷ []) ≡ true
unfolding same_string_set has_unique_values set_size
same_string_set-both a b p q w (inl (e, f)) = rw e (rw f (ground (arith, beq_refl a, beq_refl b)))
same_string_set-both a b p q w (inr (e, f)) = rw e (rw f (ground (arith, beq_refl a, beq_refl b)))
