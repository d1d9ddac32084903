-- ===== src/Prelude/Decimal.antt =====
-- Go's `strconv.Itoa` and `strconv.FormatInt(n, 10)`, on the integers.
pub mod Reading
use Prim.Native.Nat.{ℕ, zero, suc, ◌/◌, ◌%◌}
use Prim.Native.Char.{Char}
use Prim.Native.String.{String}
use mathlib.Core.Path.{◌≡◌, refl}
use cribe.Prelude.Tests.{nat_eq, ltb, if◌then◌else◌}

-- `negsuc n` is -(n + 1).
pub data ℤ : Type 0 where
  pos : ℕ → ℤ
  negsuc : ℕ → ℤ

digit : ℕ → Char
digit n =
    if nat_eq n 0
    then "0"
    else if nat_eq n 1
    then "1"
    else if nat_eq n 2
    then "2"
    else if nat_eq n 3
    then "3"
    else if nat_eq n 4
    then "4"
    else if nat_eq n 5
    then "5"
    else if nat_eq n 6
    then "6"
    else if nat_eq n 7
    then "7"
    else if nat_eq n 8
    then "8"
    else "9"

-- The digits of `n` in front of a text; the fuel counts the digits that may follow the last.
digits : ℕ → ℕ → String → String
unfolding digit
digits zero n out = String.◌∷◌ (digit (n % 10)) out
digits (suc fuel) n out =
    let rest = digits fuel (n / 10) (String.◌∷◌ (digit (n % 10)) out) in
    if ltb n 10 then String.◌∷◌ (digit n) out else rest

unfoldable pub itoa : ℤ → String
unfolding digits
itoa (pos n) = digits n n ""
itoa (negsuc n) = String.◌∷◌ "-" (digits (suc n) (suc n) "")

itoa-1234567 : itoa (pos 1234567) ≡ "1234567"
unfolding itoa
itoa-1234567 = refl

itoa-negative : itoa (negsuc 1001) ≡ "-1002"
unfolding itoa
itoa-negative = refl
