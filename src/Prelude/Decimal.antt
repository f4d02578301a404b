-- ===== src/Prelude/Decimal.antt =====
-- `String(n)` on a number and `BigInt(text)` on a decimal text.
use Prim.Native.Nat.{ℕ, zero, suc, ◌+◌, ◌-◌, ◌*◌, ◌/◌, ◌%◌, ◌≤◌, ◌<◌}
use Prim.Native.Char.{Char, code}
use Prim.Native.String.{String, []}
use Prim.Native.String.{◌∷◌}
use mathlib.Core.Path.{◌≡◌, refl, sym, ap, ◌∙◌}
use native.Mathlib.Omega.{arith}
use agent_relay.Prelude.Tests.{nat_beq, if◌then◌else◌, Bool-cases}
use mathlib.Core.Logic.{inl, inr}

digit : ℕ → Char
digit zero = "0"
digit (suc zero) = "1"
digit (suc (suc zero)) = "2"
digit (suc (suc (suc zero))) = "3"
digit (suc (suc (suc (suc zero)))) = "4"
digit (suc (suc (suc (suc (suc zero))))) = "5"
digit (suc (suc (suc (suc (suc (suc zero)))))) = "6"
digit (suc (suc (suc (suc (suc (suc (suc zero))))))) = "7"
digit (suc (suc (suc (suc (suc (suc (suc (suc zero)))))))) = "8"
digit n = "9"

digit_value : Char → ℕ
digit_value c = code c - 48

digit_value-digit : (d : ℕ) → d < 10 → digit_value (digit d) ≡ d
unfolding digit digit_value
digit_value-digit zero h = refl
digit_value-digit (suc zero) h = refl
digit_value-digit (suc (suc zero)) h = refl
digit_value-digit (suc (suc (suc zero))) h = refl
digit_value-digit (suc (suc (suc (suc zero)))) h = refl
digit_value-digit (suc (suc (suc (suc (suc zero))))) h = refl
digit_value-digit (suc (suc (suc (suc (suc (suc zero)))))) h = refl
digit_value-digit (suc (suc (suc (suc (suc (suc (suc zero))))))) h = refl
digit_value-digit (suc (suc (suc (suc (suc (suc (suc (suc zero)))))))) h = refl
digit_value-digit (suc (suc (suc (suc (suc (suc (suc (suc (suc zero))))))))) h = refl
digit_value-digit (suc (suc (suc (suc (suc (suc (suc (suc (suc (suc d)))))))))) h =
    absurd (omega arith)

emit : ℕ → ℕ → String → String
emit zero n out = out
emit (suc fuel) n out =
    let rest = emit fuel (n / 10) (digit (n % 10) ∷ out) in if nat_beq n 0 then out else rest

-- `String(n)`
unfoldable pub to_decimal : ℕ → String
unfolding emit digit
to_decimal n = if nat_beq n 0 then "0" else emit n n ""

scan : String → ℕ → ℕ
scan [] n = n
scan (c ∷ s) n = scan s (n * 10 + digit_value c)

-- `BigInt(text)` on the texts that the fencing-token schema lets through, `0|[1-9][0-9]*`
unfoldable pub of_decimal : String → ℕ
unfolding scan digit_value
of_decimal s = scan s 0

scan-emit : (fuel n : ℕ) (out : String) → n ≤ fuel → scan (emit fuel n out) 0 ≡ scan out n
unfolding emit scan
scan-emit zero n out h = ap (scan out) (omega arith)
scan-emit (suc fuel) n out h = elim (Bool-cases (nat_beq n 0)) [
  | inl done ↦ rw done (ap (scan out) (ground arith))
  | inr more ↦ rw more (
      scan-emit fuel (n / 10) (digit (n % 10) ∷ out) (ground arith)
      ∙ ap (scan out) (omega (arith, digit_value-digit (n % 10) (omega arith))))
]

-- Reading back the text of a number gives the number.
pub of_decimal-to_decimal : (n : ℕ) → of_decimal (to_decimal n) ≡ n
unfolding of_decimal to_decimal
of_decimal-to_decimal n = elim (Bool-cases (nat_beq n 0)) [
  | inl done ↦ rw done (ground arith)
  | inr more ↦ rw more (scan-emit n n "" (omega arith))
]

-- Different numbers have different texts.
pub to_decimal-inj : (m n : ℕ) → to_decimal m ≡ to_decimal n → m ≡ n
to_decimal-inj m n h = sym (of_decimal-to_decimal m) ∙ ap of_decimal h ∙ of_decimal-to_decimal n

to_decimal_test : to_decimal 1207 ≡ "1207"
unfolding to_decimal
to_decimal_test = refl
