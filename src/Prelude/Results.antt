-- ===== src/Prelude/Results.antt =====
-- Fallible code: a value, or the error that the program throws.
use mathlib.Core.Path.{◌≡◌, refl, ap}
use mathlib.Core.Bool.{Bool, true, false}
use mathlib.Core.Logic.{◌⊎◌, inl, inr}

pub data Result {ℓ κ} (Fault : Type ℓ) (Value : Type κ) : Type (ℓ ⊔ κ) where
  err : Fault → Result Fault Value
  ok : Value → Result Fault Value

abbrev pub ◌>>=◌ {ℓ κ ι} :
    {Fault : Type ℓ} {V : Type κ} {W : Type ι}
    → Result Fault V
    → (V → Result Fault W)
    → Result Fault W
err fault >>= next = err fault
ok value >>= next = next value

-- A check that gives nothing, before the rest.
abbrev pub ◌>>◌ {ℓ ι} :
    {Fault : Type ℓ} {W : Type ι} → Result Fault (Unit {0}) → Result Fault W → Result Fault W
check >> rest = check >>= (λ done. rest)

infixl 5 ◌>>=◌ ◌>>◌
-- `if (test) throw e;`
abbrev pub throw_if {ℓ} : {E : Type ℓ} → Bool → E → Result E (Unit {0})
throw_if true e = err e
throw_if false e = ok tt

-- Inversion of a step that succeeds after a guard.
pub throw_if-ok {ℓ ι} :
    {E : Type ℓ} {B : Type ι} (b : Bool) (e : E) (k : Result E B) {r : B}
    → (throw_if b e >> k) ≡ ok r
    → (b ≡ false) × (k ≡ ok r)
throw_if-ok true e k h = cc
throw_if-ok false e k h = (refl, h)

pub >>=-eq-ok {ℓ κ ι} :
    {Fault : Type ℓ} {V : Type κ} {W : Type ι} (first : Result Fault V) (next : V → Result Fault W)
    {w : W}
    → (first >>= next) ≡ ok w
    → (value : V) × (first ≡ ok value) × (next value ≡ ok w)
>>=-eq-ok (err fault) next passes = cc
>>=-eq-ok (ok value) next passes = (value, refl, passes)

pub Result-cases {ℓ κ} :
    {E : Type ℓ} {A : Type κ} (r : Result E A) → ((e : E) × (r ≡ err e)) ⊎ ((a : A) × (r ≡ ok a))
Result-cases (ok a) = inr (a, refl)
Result-cases (err e) = inl (e, refl)

abbrev value_or {ℓ ι} : {E : Type ℓ} {A : Type ι} → A → Result E A → A
value_or a (err e) = a
value_or a (ok b) = b

pub ok-inj {ℓ ι} : {E : Type ℓ} {A : Type ι} (a b : A) → ◌≡◌ {A = Result E A} (ok a) (ok b) → a ≡ b
ok-inj a b h = ap (value_or a) h
