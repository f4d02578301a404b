-- ===== src/Prelude/Equality.antt =====
-- `===` on texts and numbers, and `isDeepStrictEqual` on structures, as one operator by instances.
use Prim.Native.Nat.{ℕ}
use Prim.Native.String.{String}
use mathlib.Core.Path.{◌≡◌, refl}
use mathlib.Core.Logic.{◌↔◌}
use mathlib.Core.Bool.{Bool, true, false, ◌||◌}
use mathlib.Core.Option.{Option, none, some}
use mathlib.Core.List.{List, [], ◌∷◌}
use native.Mathlib.Omega.{arith}
use text.Mathlib.Text.{◌==◌ as str_eq}
use text.Mathlib.TextEquality.{eq_iff}
use agent_relay.Prelude.Tests.{nat_beq, nat_beq_iff}

pub record Equatable {ℓ} (T : Type ℓ) : Type ℓ where
  pub equal : T → T → Bool
  pub equal_iff : (left right : T) → (equal left right ≡ true) ↔ (left ≡ right)

-- Texts by their characters, numbers by comparison.
instance abbrev pub string_eq : Equatable String
string_eq = record { equal_iff = eq_iff; equal = str_eq }

instance abbrev pub nat_eq : Equatable ℕ
nat_eq = record { equal_iff = nat_beq_iff; equal = nat_beq }

abbrev pub ◌==◌ {ℓ} : {T : Type ℓ} ⦃compared : Equatable T⦄ (left right : T) → Bool
◌==◌ ⦃compared⦄ left right = compared.equal left right

infix 50 ◌==◌
unfoldable pub String-discrete : Discrete String
String-discrete s t = go (str_eq s t) refl
  where
    go : (b : Bool) → str_eq s t ≡ b → Dec (s ≡ t)
    go true e = yes ((eq_iff s t).0 e)
    go false e = no (λ p. cc (e, (eq_iff s t).1 p))

abbrev pub holds {ℓ} : {P : Type ℓ} → Dec P → Bool
holds (yes p) = true
holds (no p) = false

pub holds_iff {ℓ} : {A : Type ℓ} (d : Discrete A) (a b : A) → (holds (d a b) ≡ true) ↔ (a ≡ b)
holds_iff {A} d a b = go (d a b)
  where
    go : (x : Dec (a ≡ b)) → (holds x ≡ true) ↔ (a ≡ b)
    go (yes p) = (λ _. p, λ _. refl)
    go (no p) = (λ h. cc, λ q. absurd (p q))

-- A structure of compared parts is compared part by part.
abbrev pub eq_of_discrete {ℓ} : {A : Type ℓ} → Discrete A → Equatable A
eq_of_discrete d = record { equal = λ a b. holds (d a b); equal_iff = holds_iff d }

module _ {ℓ} {A : Type ℓ} ⦃e : Equatable A⦄ where
  pub beq_refl : (a : A) → (a == a) ≡ true
  beq_refl a = (e.equal_iff a a).1 refl

  pub beq→eq : (a b : A) → (a == b) ≡ true → a ≡ b
  beq→eq a b = (e.equal_iff a b).0

  -- `xs.includes(a)`
  abbrev pub includes : List A → A → Bool
  includes [] a = false
  includes (x ∷ xs) a = x == a || includes xs a

  -- `o === a` for an optional `o`
  abbrev pub some_in : Option A → A → Bool
  some_in none a = false
  some_in (some x) a = x == a

  abbrev pub option_beq : Option A → Option A → Bool
  option_beq none none = true
  option_beq none (some y) = false
  option_beq (some x) none = false
  option_beq (some x) (some y) = x == y

abbrev pub bool_beq : Bool → Bool → Bool
bool_beq true b = b
bool_beq false true = false
bool_beq false false = true

pub bool_beq_iff : (a b : Bool) → (bool_beq a b ≡ true) ↔ (a ≡ b)
bool_beq_iff a b = ground arith

instance abbrev pub bool_eq : Equatable Bool
bool_eq = record { equal = bool_beq; equal_iff = bool_beq_iff }
