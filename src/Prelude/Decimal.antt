-- ===== src/Prelude/Decimal.antt =====
-- `strconv.FormatUint(n, 10)`, and that it is injective.
use Prim.Native.Nat.{ℕ, zero, suc, ◌+◌, ◌-◌, ◌*◌, ◌/◌, ◌%◌, ◌≤◌, ◌<◌}
use Prim.Native.Char.{Char, code}
use Prim.Native.String.{String}
use mathlib.Core.Path.{◌≡◌, refl, sym, ap, ◌∙◌}
use native.Mathlib.Omega.{arith}
use goncordia.Prelude.Tests.{◌==◌, if◌then◌else◌, Bool-cases}
use mathlib.Core.Logic.{inl, inr}

digit : ℕ → Char
digit n =
    if n == 0
    then "0"
    else if n == 1
    then "1"
    else if n == 2
    then "2"
    else if n == 3
    then "3"
    else if n == 4
    then "4"
    else if n == 5
    then "5"
    else if n == 6
    then "6"
    else if n == 7
    then "7"
    else if n == 8
    then "8"
    else "9"

-- Each round divides `n` by ten; the first argument bounds the rounds.
emit : ℕ → ℕ → String → String
unfolding digit
emit zero n out = out
emit (suc f) n out =
    let rest = emit f (n / 10) (String.◌∷◌ (digit (n % 10)) out) in if n == 0 then out else rest

unfoldable pub format_uint : ℕ → String
unfolding emit
format_uint n = if n == 0 then "0" else emit n n ""

value_from : ℕ → String → ℕ
value_from n String.[] = n
value_from n (String.◌∷◌ c s) = value_from (n * 10 + (code c - 48)) s

code-digit : (n : ℕ) → n < 10 → code (digit n) ≡ 48 + n
unfolding digit
code-digit zero h = refl
code-digit (suc zero) h = refl
code-digit (suc (suc zero)) h = refl
code-digit (suc (suc (suc zero))) h = refl
code-digit (suc (suc (suc (suc zero)))) h = refl
code-digit (suc (suc (suc (suc (suc zero))))) h = refl
code-digit (suc (suc (suc (suc (suc (suc zero)))))) h = refl
code-digit (suc (suc (suc (suc (suc (suc (suc zero))))))) h = refl
code-digit (suc (suc (suc (suc (suc (suc (suc (suc zero)))))))) h = refl
code-digit (suc (suc (suc (suc (suc (suc (suc (suc (suc zero))))))))) h = refl
code-digit (suc (suc (suc (suc (suc (suc (suc (suc (suc (suc n)))))))))) h = absurd (omega arith)

value-emit : (f n : ℕ) (out : String) → n ≤ f → value_from 0 (emit f n out) ≡ value_from n out
unfolding emit value_from
value-emit zero n out h = ap (λ m. value_from m out) (omega arith)
value-emit (suc f) n out h = elim (Bool-cases (n == 0)) [
  | inl done ↦ rw done (ap (λ m. value_from m out) (ground arith))
  | inr more ↦ rw more (
      value-emit f (n / 10) (String.◌∷◌ (digit (n % 10)) out) (ground arith)
      ∙ ap (λ m. value_from m out) (omega (arith, code-digit (n % 10))))
]

value-format_uint : (n : ℕ) → value_from 0 (format_uint n) ≡ n
unfolding format_uint value_from
value-format_uint n = elim (Bool-cases (n == 0)) [
  | inl none_left ↦ rw none_left (ground arith)
  | inr some_left ↦ rw some_left (value-emit n n "" (omega arith))
]

pub format_uint-injective : (a b : ℕ) → format_uint a ≡ format_uint b → a ≡ b
format_uint-injective a b e = sym (value-format_uint a) ∙ ap (value_from 0) e ∙ value-format_uint b

format_uint_120 : format_uint 120 ≡ "120"
unfolding format_uint
format_uint_120 = refl
