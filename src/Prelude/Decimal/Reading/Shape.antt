-- ===== src/Prelude/Decimal/Reading/Shape.antt =====
-- What the decimal text of an integer looks like.
use Prim.Native.Nat.{ℕ, zero, suc, ◌/◌, ◌%◌, ◌≤◌, ◌<◌}
use Prim.Native.Char.{Char, code}
use Prim.Native.String.{String}
use mathlib.Core.Path.{◌≡◌, refl}
use mathlib.Core.Logic.{inl, inr}
use mathlib.Core.Bool.{Bool, true, ◌&&◌}
use native.Mathlib.Omega.{arith}
use cribe.Prelude.Tests.{leb, ltb, Bool-cases}
use cribe.Prelude.Decimal.{pos, negsuc, digit, digits, itoa}
use cribe.Prelude.Decimal.Reading.{code-digit, read_digits, read_digits_all}

abbrev pub is_digit : ℕ → Bool
is_digit n = leb 48 n && leb n 57

unfoldable pub are_digits : String → Bool
are_digits String.[] = true
are_digits (String.◌∷◌ c s) = is_digit (code c) && are_digits s

are_digits-digit :
    (n : ℕ) (s : String) → n < 10 → are_digits s ≡ true → are_digits (String.◌∷◌ (digit n) s) ≡ true
unfolding are_digits
are_digits-digit n s small h = ground (arith, code-digit n small)

-- A positive number starts with another digit than zero.
digits-shape :
    (fuel n : ℕ) (out : String)
    → 0 < n
    → n ≤ fuel
    → are_digits out ≡ true
    → (m : ℕ) × (rest : String) × (0 < m)
      × (m < 10)
      × (digits fuel n out ≡ String.◌∷◌ (digit m) rest)
      × (are_digits rest ≡ true)
unfolding digits
digits-shape zero n out p h a = absurd (omega arith)
digits-shape (suc fuel) n out p h a = elim (Bool-cases (ltb n 10)) [
  | inl small ↦ (n, out, p, ground arith, rw small refl, a)
  | inr large ↦ rw large (
      digits-shape fuel (n / 10) (String.◌∷◌ (digit (n % 10)) out) (ground arith) (omega arith)
        (are_digits-digit (n % 10) out (omega arith) a))
]

-- The text of a positive number: a digit, not zero, and digits.
pub record IsPositive (n : ℕ) (s : String) : Type 0 where
  pub first : Char
  pub rest : String
  pub above : 48 < code first
  pub below : code first < 58
  pub split : s ≡ String.◌∷◌ first rest
  pub digits_lem : are_digits rest ≡ true
  pub read : read_digits 0 s ≡ n

-- A number and its negation have one text behind the sign.
pub itoa-IsPositive :
    (n : ℕ)
    → (s : String) × IsPositive (suc n) s
      × (itoa (pos (suc n)) ≡ s)
      × (itoa (negsuc n) ≡ String.◌∷◌ "-" s)
unfolding itoa
itoa-IsPositive n =
    let (m, rest, above, below, split, all) =
      digits-shape (suc n) (suc n) "" (omega arith) (omega arith) (unfold are_digits in refl) in
    (
      digits (suc n) (suc n) "",
      record {
        first = digit m;
        rest = rest;
        above = omega (arith, code-digit m below);
        below = omega (arith, code-digit m below);
        split = split;
        digits_lem = all;
        read = read_digits_all (suc n);
      },
      refl,
      refl,
    )
