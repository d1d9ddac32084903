-- ===== src/Json/Numbers/RoundTrip.antt =====
-- A number that was written is read back.
use Prim.Native.Char.{Char, code}
use Prim.Native.String.append
use cribe.Prelude.{
  ℕ, zero, suc, ◌<◌, String, ◌<>◌, true, none, some, List, [], ◌∷◌, ◌≡◌, refl, sym, ap, ◌∙◌, arith,
}
use cribe.Prelude.Decimal.{ℤ, pos, negsuc, itoa}
use cribe.Prelude.Decimal.Reading.{read_digits}
use cribe.Prelude.Decimal.Reading.Shape.{are_digits, IsPositive, itoa-IsPositive}
use cribe.Prelude.Text.Appending.{text-append_snoc, text-append-nil}
use cribe.Json.Numbers.{
  NumberPlace, signed, zeroed, whole, begin_number, next_place, may_end, limit, parse_int,
}
use cribe.Json.Values.{number}
use cribe.Json.Scanner.{
  Frame, in_array, in_object, Machine, machine, in_number, value, step, run, complete,
}
use cribe.Json.Fields.{onto}

module _ (frames : List Frame) where
  abbrev numbering : NumberPlace → String → Machine
  numbering place s = machine (in_number place s) frames

  run_on :
      (place next : NumberPlace) (s rest : String) (c : Char)
      → next_place place (code c) ≡ some next
      → run (numbering place s) (String.◌∷◌ c rest)
        ≡ run (numbering next (s <> String.◌∷◌ c String.[])) rest
  unfolding run step
  run_on place next s rest c e = rw (e, run) refl

  run_digits :
      (t s rest : String)
      → are_digits t ≡ true
      → run (numbering whole s) (onto t rest) ≡ run (numbering whole (s <> t)) rest
  unfolding are_digits
  run_digits String.[] s rest h =
      ap (λ (x : String). run (numbering whole x) rest) (sym (text-append-nil s))
  run_digits (String.◌∷◌ c t) s rest h =
      run_on whole whole s (onto t rest) c (ground arith)
      ∙ run_digits t (s <> String.◌∷◌ c String.[]) rest (ground arith)
      ∙ ap (λ (x : String). run (numbering whole x) rest) (text-append_snoc s t c)

begin_positive : (n : ℕ) → 48 < n → n < 58 → begin_number n ≡ some whole
begin_positive n a b = ground arith

signed_positive : (n : ℕ) → 48 < n → n < 58 → next_place signed n ≡ some whole
signed_positive n a b = ground arith

-- A closing brace ends a number.
run_end :
    (frames : List Frame) (place : NumberPlace) (s rest : String)
    → next_place place 125 ≡ none
    → may_end place ≡ true
    → run (machine (in_number place s) frames) (String.◌∷◌ "}" rest)
      ≡ run (complete (number s) frames) (String.◌∷◌ "}" rest)
unfolding run step complete
run_end [] place s rest e m = rw (e, m, run) refl
run_end (in_array xs ∷ fs) place s rest e m = rw (e, m, run) refl
run_end (in_object ms k ∷ fs) place s rest e m = rw (e, m, run) refl

module _ (frames : List Frame) where
  abbrev one : Char → String
  one c = String.◌∷◌ c String.[]

  step-start :
      (c : Char) (place : NumberPlace)
      → 44 < code c
      → code c < 58
      → begin_number (code c) ≡ some place
      → step (machine value frames) c ≡ some (numbering frames place (one c))
  unfolding step
  step-start c place above below e = ground arith

  run-start :
      (c : Char) (place : NumberPlace) (rest : String)
      → 44 < code c
      → code c < 58
      → begin_number (code c) ≡ some place
      → run (machine value frames) (String.◌∷◌ c rest) ≡ run (numbering frames place (one c)) rest
  run-start c place rest above below e =
      unfold run in rw (step-start c place above below e, run) refl

  run-rest :
      {n : ℕ} {s : String} (p : IsPositive n s) (t rest : String)
      → run (numbering frames whole (t <> one p.first)) (onto p.rest (String.◌∷◌ "}" rest))
        ≡ run (complete (number (t <> s)) frames) (String.◌∷◌ "}" rest)
  run-rest {n} {s} p t rest =
      run_digits frames p.rest (t <> one p.first) (String.◌∷◌ "}" rest) p.digits_lem
      ∙ ap (λ (x : String). run (numbering frames whole x) (String.◌∷◌ "}" rest))
          (text-append_snoc t p.rest p.first ∙ ap (λ (x : String). t <> x) (sym p.split))
      ∙ run_end frames whole (t <> s) rest refl refl

  -- Where a value comes, the text of an integer is read as it was, in front of a closing brace.
  pub run-itoa :
      (n : ℤ) (rest : String)
      → run (machine value frames) (onto (itoa n) (String.◌∷◌ "}" rest))
        ≡ run (complete (number (itoa n)) frames) (String.◌∷◌ "}" rest)
  run-itoa (pos zero) rest =
      unfold itoa in
      run-start "0" zeroed (String.◌∷◌ "}" rest) (omega arith) (omega arith) refl
      ∙ run_end frames zeroed "0" rest refl refl
  run-itoa (pos (suc n)) rest =
      let (s, p, e, _) = itoa-IsPositive n in
      let start : run (machine value frames) (onto s (String.◌∷◌ "}" rest))
          ≡ run (numbering frames whole (one p.first)) (onto p.rest (String.◌∷◌ "}" rest)) =
        ap (λ (x : String). run (machine value frames) (onto x (String.◌∷◌ "}" rest))) p.split
        ∙ run-start p.first whole (onto p.rest (String.◌∷◌ "}" rest)) (omega (arith, p.above))
            p.below (begin_positive (code p.first) p.above p.below) in
      ap (λ (x : String). run (machine value frames) (onto x (String.◌∷◌ "}" rest))) e
      ∙ start
      ∙ ap (λ (x : String). run (numbering frames whole x) (onto p.rest (String.◌∷◌ "}" rest)))
          (sym (append.nil (one p.first)))
      ∙ run-rest p "" rest
      ∙ ap (λ (x : String). run (complete (number x) frames) (String.◌∷◌ "}" rest))
          (append.nil s ∙ sym e)
  run-itoa (negsuc n) rest =
      let (s, p, _, e) = itoa-IsPositive n in
      ap (λ (x : String). run (machine value frames) (onto x (String.◌∷◌ "}" rest))) e
      ∙ run-start "-" signed (onto s (String.◌∷◌ "}" rest)) (omega arith) (omega arith) refl
      ∙ ap (λ (x : String). run (numbering frames signed "-") (onto x (String.◌∷◌ "}" rest)))
          p.split
      ∙ run_on frames signed whole "-" (onto p.rest (String.◌∷◌ "}" rest)) p.first
          (signed_positive (code p.first) p.above p.below)
      ∙ run-rest p "-" rest
      ∙ ap (λ (x : String). run (complete (number x) frames) (String.◌∷◌ "}" rest))
          (append.cons "-" String.[] s ∙ ap (String.◌∷◌ "-") (append.nil s) ∙ sym e)

-- `strconv.ParseInt` reads the text of an integer of 64 bits.
abbrev pub InInt64 : ℤ → Type 0
InInt64 (pos n) = n < limit
InInt64 (negsuc n) = n < limit

parse_positive :
    (c : Char) (s : String) (n : ℕ)
    → 48 < code c
    → code c < 58
    → are_digits s ≡ true
    → read_digits 0 (String.◌∷◌ c s) ≡ n
    → n < limit
    → parse_int (String.◌∷◌ c s) ≡ some (pos n)
unfolding parse_int are_digits
parse_positive c s n a b d e h = ground arith

parse_negative :
    (s : String) (n : ℕ)
    → are_digits s ≡ true
    → read_digits 0 s ≡ suc n
    → n < limit
    → parse_int (String.◌∷◌ "-" s) ≡ some (negsuc n)
unfolding parse_int
parse_negative s n d e h = ground arith

are_digits-IsPositive : {n : ℕ} {s : String} → IsPositive n s → are_digits s ≡ true
unfolding are_digits
are_digits-IsPositive p = rw p.split (ground (arith, p.above, p.below, p.digits_lem))

pub parse_int-itoa : (n : ℤ) → InInt64 n → parse_int (itoa n) ≡ some n
parse_int-itoa (pos zero) h = unfold itoa parse_int are_digits read_digits in refl
parse_int-itoa (pos (suc n)) h =
    let (s, p, e, _) = itoa-IsPositive n in
    ap parse_int (e ∙ p.split)
    ∙ parse_positive p.first p.rest (suc n) p.above p.below p.digits_lem
        (ap (read_digits 0) (sym p.split) ∙ p.read) h
parse_int-itoa (negsuc n) h =
    let (s, p, _, e) = itoa-IsPositive n in
    ap parse_int e ∙ parse_negative s n (are_digits-IsPositive p) p.read h
