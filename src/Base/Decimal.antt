-- ===== src/Base/Decimal.antt =====
-- Python's `str` of an integer that is not negative, and `int` of a text of digits.
use Prim.Native.Nat.{ℕ, zero, suc, ◌+◌, ◌-◌, ◌*◌, ◌/◌, ◌%◌, ◌<◌}
use Prim.Native.Char.{Char, code}
use Prim.Native.String.{String}
use mathlib.Core.Path.{◌≡◌, refl, ap, ◌∙◌}
use mathlib.Core.Logic.{inl, inr}
use mathlib.Core.Bool.{◌&&◌}
use mathlib.Core.Option.{Option, none, some}
use native.Mathlib.Omega.{arith}
use it_outsourcing_knowledge.Base.Tests.{ltb, leb, if◌then◌else◌, Bool-cases}

-- The text begins with the digit.
abbrev pub with_digit : ℕ → String → String
with_digit zero s = String.◌∷◌ "0" s
with_digit (suc zero) s = String.◌∷◌ "1" s
with_digit (suc (suc zero)) s = String.◌∷◌ "2" s
with_digit (suc (suc (suc zero))) s = String.◌∷◌ "3" s
with_digit (suc (suc (suc (suc zero)))) s = String.◌∷◌ "4" s
with_digit (suc (suc (suc (suc (suc zero))))) s = String.◌∷◌ "5" s
with_digit (suc (suc (suc (suc (suc (suc zero)))))) s = String.◌∷◌ "6" s
with_digit (suc (suc (suc (suc (suc (suc (suc zero))))))) s = String.◌∷◌ "7" s
with_digit (suc (suc (suc (suc (suc (suc (suc (suc zero)))))))) s = String.◌∷◌ "8" s
with_digit _ s = String.◌∷◌ "9" s

-- The digits of a number before a text; fuel above the number is enough.
unfoldable pub digits : ℕ → ℕ → String → String
digits zero n rest = rest
digits (suc f) n rest =
    let more = digits f (n / 10) (with_digit (n % 10) rest) in
    if ltb n 10 then with_digit n rest else more

-- `str(n)`
unfoldable pub decimal : ℕ → String
unfolding digits
decimal n = digits (suc n) n ""

unfoldable pub read_digits : ℕ → String → Option ℕ
read_digits acc String.[] = some acc
read_digits acc (String.◌∷◌ c s) =
    let rest = read_digits (acc * 10 + (code c - 48)) s in
    if leb 48 (code c) && leb (code c) 57 then rest else none

-- `int(s)` of a text of digits; any other text is refused.
unfoldable pub read_decimal : String → Option ℕ
read_decimal String.[] = none
read_decimal (String.◌∷◌ c s) = read_digits 0 (String.◌∷◌ c s)

read_digit :
    (acc d : ℕ) (s : String)
    → d < 10
    → read_digits acc (with_digit d s) ≡ read_digits (acc * 10 + d) s
unfolding read_digits
read_digit acc zero s h = ap (λ k. read_digits k s) (omega arith)
read_digit acc (suc zero) s h = refl
read_digit acc (suc (suc zero)) s h = refl
read_digit acc (suc (suc (suc zero))) s h = refl
read_digit acc (suc (suc (suc (suc zero)))) s h = refl
read_digit acc (suc (suc (suc (suc (suc zero))))) s h = refl
read_digit acc (suc (suc (suc (suc (suc (suc zero)))))) s h = refl
read_digit acc (suc (suc (suc (suc (suc (suc (suc zero))))))) s h = refl
read_digit acc (suc (suc (suc (suc (suc (suc (suc (suc zero)))))))) s h = refl
read_digit acc (suc (suc (suc (suc (suc (suc (suc (suc (suc zero))))))))) s h = refl
read_digit acc (suc (suc (suc (suc (suc (suc (suc (suc (suc (suc d)))))))))) s h =
    absurd (omega arith)

read-digits :
    (f n : ℕ) (rest : String) → n < f → read_digits 0 (digits f n rest) ≡ read_digits n rest
unfolding digits
read-digits zero n rest h = absurd (omega arith)
read-digits (suc f) n rest h = elim (Bool-cases (ltb n 10)) [
  | inl small ↦
      rw small (read_digit 0 n rest (ground arith) ∙ ap (λ k. read_digits k rest) (omega arith))
  | inr large ↦ rw large (
      read-digits f (n / 10) (with_digit (n % 10) rest) (ground arith)
      ∙ read_digit (n / 10) (n % 10) rest (omega arith)
      ∙ ap (λ k. read_digits k rest) (omega arith))
]

with_digit_full :
    (d : ℕ) (t : String) → (c : Char) × (s : String) × (with_digit d t ≡ String.◌∷◌ c s)
with_digit_full zero t = (_, _, refl)
with_digit_full (suc zero) t = (_, _, refl)
with_digit_full (suc (suc zero)) t = (_, _, refl)
with_digit_full (suc (suc (suc zero))) t = (_, _, refl)
with_digit_full (suc (suc (suc (suc zero)))) t = (_, _, refl)
with_digit_full (suc (suc (suc (suc (suc zero))))) t = (_, _, refl)
with_digit_full (suc (suc (suc (suc (suc (suc zero)))))) t = (_, _, refl)
with_digit_full (suc (suc (suc (suc (suc (suc (suc zero))))))) t = (_, _, refl)
with_digit_full (suc (suc (suc (suc (suc (suc (suc (suc zero)))))))) t = (_, _, refl)
with_digit_full (suc (suc (suc (suc (suc (suc (suc (suc (suc d))))))))) t = (_, _, refl)

digits_full :
    (f n : ℕ) (rest : String)
    → n < f
    → (c : Char) × (s : String) × (digits f n rest ≡ String.◌∷◌ c s)
unfolding digits
digits_full zero n rest h = absurd (omega arith)
digits_full (suc f) n rest h = elim (Bool-cases (ltb n 10)) [
  | inl small ↦ rw small (with_digit_full n rest)
  | inr large ↦ rw large (digits_full f (n / 10) (with_digit (n % 10) rest) (ground arith))
]

-- Reading what was printed gives the number back.
pub read_decimal-decimal : (n : ℕ) → read_decimal (decimal n) ≡ some n
unfolding decimal read_decimal read_digits
read_decimal-decimal n =
    let (c, s, e) = digits_full (suc n) n "" (omega arith) in
    let read : read_digits 0 (digits (suc n) n "") ≡ some n =
      read-digits (suc n) n "" (omega arith) in
    rw e (rw e at read)
