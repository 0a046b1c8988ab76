-- ===== src/Base/Decimal.antt =====
-- The decimal digits of a number, as `%d` prints them, and their value.
use Prim.Native.Char.{Char, code}
use Prim.Native.String.{String, ◌++◌}
use Prim.Native.Nat.{ℕ, zero, suc, ◌+◌, ◌*◌, ◌/◌, ◌%◌, ◌-◌, ◌≤◌, ◌<◌}
use text.Mathlib.TextLemmas.{nil-append, cons-append}
use mathlib.Core.Path.{◌≡◌, refl, sym, ap, ◌∙◌}
use mathlib.Core.Logic.{inl, inr}
use native.Mathlib.Omega.{arith}
use choix.Base.Tests.{ltb, ltb→lt, if◌then◌else◌, Bool-cases}

abbrev pub digit : ℕ → Char
digit zero = "0"
digit (suc zero) = "1"
digit (suc (suc zero)) = "2"
digit (suc (suc (suc zero))) = "3"
digit (suc (suc (suc (suc zero)))) = "4"
digit (suc (suc (suc (suc (suc zero))))) = "5"
digit (suc (suc (suc (suc (suc (suc zero)))))) = "6"
digit (suc (suc (suc (suc (suc (suc (suc zero))))))) = "7"
digit (suc (suc (suc (suc (suc (suc (suc (suc zero)))))))) = "8"
digit n = "9"

abbrev pub one_digit : ℕ → String
one_digit n = String.◌∷◌ (digit n) String.[]

-- Each step drops a digit, so the number itself is fuel enough.
unfoldable pub digits : ℕ → ℕ → String
digits zero n = one_digit n
digits (suc fuel) n =
    let rest = digits fuel (n / 10) in if ltb n 10 then one_digit n else rest ++ one_digit (n % 10)

unfoldable pub decimal : ℕ → String
unfolding digits
decimal n = digits n n

unfoldable pub value_from : ℕ → String → ℕ
value_from a String.[] = a
value_from a (String.◌∷◌ c cs) = value_from (10 * a + (code c - 48)) cs

pub value_from-append :
    (a : ℕ) (s t : String) → value_from a (s ++ t) ≡ value_from (value_from a s) t
unfolding value_from
value_from-append a String.[] t = rw (nil-append t) refl
value_from-append a (String.◌∷◌ c cs) t =
    rw (cons-append c cs t) (value_from-append (10 * a + (code c - 48)) cs t)

digit_lem : (n : ℕ) → n < 10 → code (digit n) ≡ n + 48
digit_lem zero h = refl
digit_lem (suc zero) h = refl
digit_lem (suc (suc zero)) h = refl
digit_lem (suc (suc (suc zero))) h = refl
digit_lem (suc (suc (suc (suc zero)))) h = refl
digit_lem (suc (suc (suc (suc (suc zero))))) h = refl
digit_lem (suc (suc (suc (suc (suc (suc zero)))))) h = refl
digit_lem (suc (suc (suc (suc (suc (suc (suc zero))))))) h = refl
digit_lem (suc (suc (suc (suc (suc (suc (suc (suc zero)))))))) h = refl
digit_lem (suc (suc (suc (suc (suc (suc (suc (suc (suc zero))))))))) h = refl
digit_lem (suc (suc (suc (suc (suc (suc (suc (suc (suc (suc n)))))))))) h =
    absurd (omega (arith, h))

value_of_digit : (a n : ℕ) → n < 10 → value_from a (one_digit n) ≡ 10 * a + n
unfolding value_from
value_of_digit a n h = omega (arith, digit_lem n h)

value-digits : (fuel n : ℕ) → n ≤ fuel → value_from 0 (digits fuel n) ≡ n
unfolding digits
value-digits zero n h = value_of_digit 0 n (omega (arith, h)) ∙ omega arith
value-digits (suc fuel) n h = elim (Bool-cases (ltb n 10)) [
  | inl t ↦ rw t (value_of_digit 0 n (ltb→lt n 10 t) ∙ omega arith)
  | inr t ↦ rw t (
      value_from-append 0 (digits fuel (n / 10)) (one_digit (n % 10))
      ∙ ap (λ v. value_from v (one_digit (n % 10))) (value-digits fuel (n / 10) (omega (arith, h)))
      ∙ value_of_digit (n / 10) (n % 10) (omega arith)
      ∙ omega arith)
]

pub decimal-inj : (m n : ℕ) → decimal m ≡ decimal n → m ≡ n
unfolding decimal
decimal-inj m n e =
    sym (value-digits m m (omega arith)) ∙ ap (value_from 0) e ∙ value-digits n n (omega arith)

d120 : decimal 1205 ≡ "1205"
unfolding decimal
d120 = refl
