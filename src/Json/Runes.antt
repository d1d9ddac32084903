-- ===== src/Json/Runes.antt =====
-- Characters by their numbers.
use Prim.Native.Char.{Char, char, code}
use Prim.Native.Nat.{ℕ, compare, Ordering, ◌<◌}
use mathlib.Core.Path.{◌≡◌, refl}
use native.Mathlib.Omega.{arith}

-- unicode.ReplacementChar
abbrev pub replacement : Char
replacement = char 65533 tt

abbrev IsLess : Ordering → Type 0
IsLess Ordering.lt = Unit
IsLess Ordering.eq = ⊥
IsLess Ordering.gt = ⊥

abbrev AreLess : Ordering → Ordering → Type 0
AreLess Ordering.lt o = IsLess o
AreLess Ordering.eq _ = ⊥
AreLess Ordering.gt _ = ⊥

abbrev IsValid : Ordering → Ordering → Ordering → Type 0
IsValid Ordering.lt _ _ = Unit
IsValid Ordering.eq o p = AreLess o p
IsValid Ordering.gt o p = AreLess o p

abbrev with_scalar2 : (o p : Ordering) → (AreLess o p → Char) → Char
with_scalar2 Ordering.lt Ordering.lt f = f tt
with_scalar2 Ordering.lt Ordering.eq f = replacement
with_scalar2 Ordering.lt Ordering.gt f = replacement
with_scalar2 Ordering.eq p f = replacement
with_scalar2 Ordering.gt p f = replacement

abbrev with_scalar : (o p q : Ordering) → (IsValid o p q → Char) → Char
with_scalar Ordering.lt p q f = f tt
with_scalar Ordering.eq p q f = with_scalar2 p q f
with_scalar Ordering.gt p q f = with_scalar2 p q f

-- string(rune(n))
unfoldable pub rune : ℕ → Char
rune n = with_scalar (compare n 55296) (compare 57343 n) (compare n 1114112) (λ p. char n p)

with_scalar2-valid :
    (o p : Ordering) (f : AreLess o p → Char) (h : AreLess o p) → with_scalar2 o p f ≡ f h
with_scalar2-valid Ordering.lt Ordering.lt f h = refl
with_scalar2-valid Ordering.lt Ordering.eq f h = absurd h
with_scalar2-valid Ordering.lt Ordering.gt f h = absurd h
with_scalar2-valid Ordering.eq p f h = absurd h
with_scalar2-valid Ordering.gt p f h = absurd h

with_scalar-valid :
    (o p q : Ordering) (f : IsValid o p q → Char) (h : IsValid o p q) → with_scalar o p q f ≡ f h
with_scalar-valid Ordering.lt p q f h = refl
with_scalar-valid Ordering.eq p q f h = with_scalar2-valid p q f h
with_scalar-valid Ordering.gt p q f h = with_scalar2-valid p q f h

pub rune-code : (c : Char) → rune (code c) ≡ c
unfolding rune
rune-code (char n h) =
    with_scalar-valid (compare n 55296) (compare 57343 n) (compare n 1114112) (λ p. char n p) h

code-with_scalar :
    (o p q : Ordering) (f : IsValid o p q → Char) (k : ℕ)
    → o ≡ Ordering.lt
    → ((h : IsValid o p q) → code (f h) ≡ k)
    → code (with_scalar o p q f) ≡ k
code-with_scalar Ordering.lt p q f k e h = h tt
code-with_scalar Ordering.eq p q f k e h = cc
code-with_scalar Ordering.gt p q f k e h = cc

-- Below the surrogates.
pub code-rune : (n : ℕ) → n < 55296 → code (rune n) ≡ n
unfolding rune
code-rune n h =
    code-with_scalar (compare n 55296) (compare 57343 n) (compare n 1114112) (λ p. char n p) n
      (ground arith) (λ p. refl)
