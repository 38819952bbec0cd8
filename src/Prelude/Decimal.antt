-- ===== src/Prelude/Decimal.antt =====
-- `fmt.Sprintf("%d", n)`: decimal digits, and that different numbers have different digits.
use Prim.Native.Nat.{ℕ, zero, suc, ◌+◌, ◌-◌, ◌*◌, ◌/◌, ◌%◌, ◌<◌}
use Prim.Native.Char.{Char, code}
use Prim.Native.String.{String, ◌++◌}
use mathlib.Core.Path.{◌≡◌, refl, ap, sym, ◌∙◌}
use mathlib.Core.Logic.{inl, inr}
use native.Mathlib.Omega.{arith}
use text.Mathlib.TextLemmas.{append_cancel_left}
use openharness.Prelude.Tests.{ltb, lt→ltb, if◌then◌else◌, Bool-cases}
use openharness.Prelude.Int64.{sign_bit, modulus}

digit : ℕ → Char
digit zero = "0"
digit (suc zero) = "1"
digit (suc (suc zero)) = "2"
digit (suc (suc (suc zero))) = "3"
digit (suc (suc (suc (suc zero)))) = "4"
digit (suc (suc (suc (suc (suc zero))))) = "5"
digit (suc (suc (suc (suc (suc (suc zero)))))) = "6"
digit (suc (suc (suc (suc (suc (suc (suc zero))))))) = "7"
digit (suc (suc (suc (suc (suc (suc (suc (suc zero)))))))) = "8"
digit _ = "9"

-- The digits of `n` before `rest`; the first argument bounds their number.
digits : ℕ → ℕ → String → String
unfolding digit
digits zero n rest = rest
digits (suc f) n rest =
    let more = digits f (n / 10) (String.◌∷◌ (digit (n % 10)) rest) in
    if ltb n 10 then String.◌∷◌ (digit n) rest else more

unfoldable pub decimal : ℕ → String
unfolding digits
decimal n = digits (suc n) n ""

-- `%d` of an int64 bit pattern
unfoldable pub decimal64 : ℕ → String
unfolding decimal
decimal64 n = if ltb n sign_bit then decimal n else "-" ++ decimal (modulus - n)

-- The number that digits stand for, behind the number read so far.
value : ℕ → String → ℕ
value n String.[] = n
value n (String.◌∷◌ c s) = value (n * 10 + (code c - 48)) s

code-digit : (d : ℕ) → d < 10 → code (digit d) - 48 ≡ d
unfolding digit
code-digit zero h = refl
code-digit (suc zero) h = refl
code-digit (suc (suc zero)) h = refl
code-digit (suc (suc (suc zero))) h = refl
code-digit (suc (suc (suc (suc zero)))) h = refl
code-digit (suc (suc (suc (suc (suc zero))))) h = refl
code-digit (suc (suc (suc (suc (suc (suc zero)))))) h = refl
code-digit (suc (suc (suc (suc (suc (suc (suc zero))))))) h = refl
code-digit (suc (suc (suc (suc (suc (suc (suc (suc zero)))))))) h = refl
code-digit (suc (suc (suc (suc (suc (suc (suc (suc (suc zero))))))))) h = refl
code-digit (suc (suc (suc (suc (suc (suc (suc (suc (suc (suc n)))))))))) h = absurd (omega arith)

value-digits : (f n : ℕ) (rest : String) → n < f → value 0 (digits f n rest) ≡ value n rest
unfolding digits value
value-digits zero n rest h = absurd (omega arith)
value-digits (suc f) n rest h = elim (Bool-cases (ltb n 10)) [
  | inl small ↦ rw small (ap (λ (t : ℕ). value t rest) (omega (arith, code-digit n (ground arith))))
  | inr large ↦ rw large (
      value-digits f (n / 10) (String.◌∷◌ (digit (n % 10)) rest) (ground arith)
      ∙ ap (λ (t : ℕ). value t rest) (omega (arith, code-digit (n % 10) (omega arith))))
]

pub decimal-injective : (a b : ℕ) → decimal a ≡ decimal b → a ≡ b
unfolding decimal value
decimal-injective a b e =
    sym (value-digits (suc a) a "" (omega arith))
    ∙ (ap (value 0) e ∙ value-digits (suc b) b "" (omega arith))

-- Below the sign bit a pattern prints as the number that it is.
decimal64_of_lt : (n : ℕ) → n < sign_bit → decimal64 n ≡ decimal n
unfolding decimal64
decimal64_of_lt n h = rw (lt→ltb n sign_bit h)

-- A prefix and a counter below the sign bit name different things for different counters.
pub numbered-injective :
    (p : String) (a b : ℕ)
    → a < sign_bit
    → b < sign_bit
    → p ++ decimal64 a ≡ p ++ decimal64 b
    → a ≡ b
numbered-injective p a b ha hb e = decimal-injective a b (
    sym (decimal64_of_lt a ha)
    ∙ (append_cancel_left p (decimal64 a) (decimal64 b) e ∙ decimal64_of_lt b hb))
