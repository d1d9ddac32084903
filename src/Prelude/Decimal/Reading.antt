-- ===== src/Prelude/Decimal/Reading.antt =====
-- A decimal text determines its integer.
pub mod Shape
use Prim.Native.Nat.{ℕ, zero, suc, ◌+◌, ◌*◌, ◌-◌, ◌/◌, ◌%◌, ◌≤◌, ◌<◌}
use Prim.Native.Char.{code}
use Prim.Native.String.{String}
use mathlib.Core.Path.{◌≡◌, refl, ap, ◌∙◌}
use mathlib.Core.Logic.{inl, inr}
use native.Mathlib.Omega.{arith}
use cribe.Prelude.Tests.{nat_eq, ltb, if◌then◌else◌, Bool-cases}
use cribe.Prelude.Decimal.{ℤ, pos, negsuc, digit, digits, itoa}

-- The number that a text of digits stands for, behind the digits that were read.
unfoldable pub read_digits : ℕ → String → ℕ
read_digits acc String.[] = acc
read_digits acc (String.◌∷◌ c s) = read_digits (acc * 10 + (code c - 48)) s

unfoldable pub read_integer : String → ℤ
unfolding read_digits
read_integer String.[] = pos 0
read_integer (String.◌∷◌ c s) =
    if nat_eq (code c) 45
    then negsuc (read_digits 0 s - 1)
    else pos (read_digits 0 (String.◌∷◌ c s))

code-digit : (n : ℕ) → n < 10 → code (digit n) ≡ n + 48
unfolding digit
code-digit zero h = refl
code-digit (suc zero) h = refl
code-digit (suc (suc zero)) h = refl
code-digit (suc (suc (suc zero))) h = refl
code-digit (suc (suc (suc (suc zero)))) h = refl
code-digit (suc (suc (suc (suc (suc zero))))) h = refl
code-digit (suc (suc (suc (suc (suc (suc zero)))))) h = refl
code-digit (suc (suc (suc (suc (suc (suc (suc zero))))))) h = refl
code-digit (suc (suc (suc (suc (suc (suc (suc (suc zero)))))))) h = refl
code-digit (suc (suc (suc (suc (suc (suc (suc (suc (suc zero))))))))) h = refl
code-digit (suc (suc (suc (suc (suc (suc (suc (suc (suc (suc n)))))))))) h = absurd (omega arith)

-- A digit that is read behind a number.
read_digits-digit :
    (acc n : ℕ) (s : String)
    → n < 10
    → read_digits acc (String.◌∷◌ (digit n) s) ≡ read_digits (acc * 10 + n) s
unfolding read_digits
read_digits-digit acc n s h = ap (λ (a : ℕ). read_digits a s) (omega (arith, code-digit n h))

read_digits-digits :
    (fuel n : ℕ) (out : String) → n ≤ fuel → read_digits 0 (digits fuel n out) ≡ read_digits n out
unfolding digits
read_digits-digits zero n out h =
    read_digits-digit 0 (n % 10) out (omega arith) ∙ ap (λ (a : ℕ). read_digits a out) (omega arith)
read_digits-digits (suc fuel) n out h = elim (Bool-cases (ltb n 10)) [
  | inl small ↦
      rw small
        (read_digits-digit 0 n out (ground arith) ∙ ap (λ (a : ℕ). read_digits a out) (omega arith))
  | inr large ↦ rw large (
      read_digits-digits fuel (n / 10) (String.◌∷◌ (digit (n % 10)) out) (ground arith)
      ∙ (read_digits-digit (n / 10) (n % 10) out (omega arith)
          ∙ ap (λ (a : ℕ). read_digits a out) (omega arith)))
]

-- A number's text starts with a digit.
digits-head :
    (fuel n : ℕ) (out : String)
    → (m : ℕ) × (rest : String) × (m < 10) × (digits fuel n out ≡ String.◌∷◌ (digit m) rest)
unfolding digits
digits-head zero n out = (n % 10, out, omega arith, refl)
digits-head (suc fuel) n out = elim (Bool-cases (ltb n 10)) [
  | inl small ↦ (n, out, ground arith, rw small refl)
  | inr large ↦ rw large (digits-head fuel (n / 10) (String.◌∷◌ (digit (n % 10)) out))
]

read_digits_all : (n : ℕ) → read_digits 0 (digits n n "") ≡ n
read_digits_all n = read_digits-digits n n "" (omega arith) ∙ unfold read_digits in refl

read_positive :
    (n m : ℕ) (s rest : String)
    → m < 10
    → s ≡ String.◌∷◌ (digit m) rest
    → read_digits 0 s ≡ n
    → read_integer s ≡ pos n
unfolding read_integer
read_positive n m s rest small e h = rw e (ground (arith, code-digit m small, rw e at h))

read_negative :
    (n : ℕ) (s : String) → read_digits 0 s ≡ suc n → read_integer (String.◌∷◌ "-" s) ≡ negsuc n
unfolding read_integer
read_negative n s h = ap negsuc (omega (arith, h))

-- Reading the decimal text of an integer gives the integer back.
pub read_integer-itoa : (n : ℤ) → read_integer (itoa n) ≡ n
unfolding itoa
read_integer-itoa (pos n) =
    let (m, rest, small, e) = digits-head n n "" in
    read_positive n m (digits n n "") rest small e (read_digits_all n)
read_integer-itoa (negsuc n) = read_negative n (digits (suc n) (suc n) "") (read_digits_all (suc n))

-- Two integers with the same text are the same.
pub itoa-injective : (m n : ℤ) → itoa m ≡ itoa n → m ≡ n
itoa-injective m n e = cc (read_integer-itoa m, read_integer-itoa n)
