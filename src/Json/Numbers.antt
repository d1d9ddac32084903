-- ===== src/Json/Numbers.antt =====
-- The numbers of JSON, one character at a time, and `strconv.ParseInt(s, 10, 64)` of such a text.
pub mod RoundTrip
use Prim.Native.Char.{code}
use cribe.Prelude.{
  ℕ, suc, ◌-◌, String, Bool, true, false, Option, none, some, nat_eq, ltb, leb, ◌&&◌, ◌||◌,
  if◌then◌else◌,
}
use cribe.Prelude.Decimal.{ℤ, pos, negsuc}
use cribe.Prelude.Decimal.Reading.{read_digits}
use cribe.Prelude.Decimal.Reading.Shape.{is_digit, are_digits}

-- Behind the sign, behind a leading zero, in the digits, behind the point, in the digits behind it,
-- behind the letter of the exponent, behind its sign, and in its digits.
pub data NumberPlace : Type 0 where
  signed zeroed whole pointed fraction lettered exponent_signed exponent : NumberPlace

-- Where a number may end.
abbrev pub may_end : NumberPlace → Bool
may_end signed = false
may_end zeroed = true
may_end whole = true
may_end pointed = false
may_end fraction = true
may_end lettered = false
may_end exponent_signed = false
may_end exponent = true

abbrev when : Bool → NumberPlace → Option NumberPlace
when b place = if b then some place else none

abbrev is_letter : ℕ → Bool
is_letter n = nat_eq n 101 || nat_eq n 69

abbrev behind_whole : ℕ → Option NumberPlace
behind_whole n = if nat_eq n 46 then some pointed else when (is_letter n) lettered

-- The first character of a number.
abbrev pub begin_number : ℕ → Option NumberPlace
begin_number n =
    if nat_eq n 45
    then some signed
    else if nat_eq n 48
    then some zeroed
    else when (is_digit n) whole

-- One more character, if the number goes on with it.
abbrev pub next_place : NumberPlace → ℕ → Option NumberPlace
next_place signed n = if nat_eq n 48 then some zeroed else when (is_digit n) whole
next_place zeroed n = behind_whole n
next_place whole n = if is_digit n then some whole else behind_whole n
next_place pointed n = when (is_digit n) fraction
next_place fraction n = if is_digit n then some fraction else when (is_letter n) lettered
next_place lettered n =
    if nat_eq n 43 || nat_eq n 45 then some exponent_signed else when (is_digit n) exponent
next_place exponent_signed n = when (is_digit n) exponent
next_place exponent n = when (is_digit n) exponent

-- 2^63
abbrev pub limit : ℕ
limit = 9223372036854775808

abbrev positive : ℕ → Option ℤ
positive n = if ltb n limit then some (pos n) else none

abbrev pub negative : ℕ → Option ℤ
negative n =
    if nat_eq n 0 then some (pos 0) else if leb n limit then some (negsuc (n - 1)) else none

unfoldable pub parse_int : String → Option ℤ
unfolding are_digits read_digits
parse_int String.[] = none
parse_int (String.◌∷◌ c s) =
    if nat_eq (code c) 45
    then if are_digits s then negative (read_digits 0 s) else none
    else if are_digits (String.◌∷◌ c s)
    then positive (read_digits 0 (String.◌∷◌ c s))
    else none
