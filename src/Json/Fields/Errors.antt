-- ===== src/Json/Fields/Errors.antt =====
-- The errors of `json.Unmarshal` wrap no other error.
use cribe.Prelude.{
  String, false, Option, none, some, Option-cases, Bool-cases, inl, inr, List, [], ◌∷◌, ◌==◌, ◌≡◌,
  refl,
}
use cribe.Prelude.Decimal.{ℤ}
use cribe.Errors.{Error, canceled, errors_is}
use cribe.Json.Numbers.{parse_int}
use cribe.Json.Values.{
  Json, null, boolean, number, text, array, object, Members, no_members, member,
}
use cribe.Bytes.{Bytes}
use cribe.Json.Scanner.{parse}
use cribe.Json.Fields.{
  Field, text_field, int_field, set_field, set_members, set_value, fold_name, unmarshal,
}

-- An error that is there is not `context.Canceled`.
abbrev pub IsPlain : Option Error → Type 0
IsPlain none = Unit {0}
IsPlain (some e) = errors_is e canceled ≡ false

module _ {A : Type 0} where
  abbrev pub ArePlain : List (Field A) → Type 0
  ArePlain [] = Unit {0}
  ArePlain (f ∷ fields) = ((v : Json) (a : A) → IsPlain (f.set v a).1) × ArePlain fields

  pub text_field-IsPlain :
      (type_name name go_type : String) (put : String → A → A) (v : Json) (a : A)
      → IsPlain ((text_field type_name name go_type put).set v a).1
  unfolding text_field errors_is
  text_field-IsPlain t n g put null a = tt
  text_field-IsPlain t n g put (boolean b) a = refl
  text_field-IsPlain t n g put (number s) a = refl
  text_field-IsPlain t n g put (text s) a = tt
  text_field-IsPlain t n g put (array xs) a = refl
  text_field-IsPlain t n g put (object ms) a = refl

  pub int_field-IsPlain :
      (type_name name : String) (put : ℤ → A → A) (v : Json) (a : A)
      → IsPlain ((int_field type_name name put).set v a).1
  unfolding int_field errors_is
  int_field-IsPlain t n put null a = tt
  int_field-IsPlain t n put (boolean b) a = refl
  int_field-IsPlain t n put (number s) a = elim (Option-cases (parse_int s)) [
    | inl h ↦ rw h refl
    | inr (z, h) ↦ rw h tt
  ]
  int_field-IsPlain t n put (text s) a = refl
  int_field-IsPlain t n put (array xs) a = refl
  int_field-IsPlain t n put (object ms) a = refl

  set_field-IsPlain :
      (fields : List (Field A)) (key : String) (v : Json) (a : A)
      → ArePlain fields
      → IsPlain (set_field fields key v a).1
  unfolding set_field
  set_field-IsPlain [] key v a plain = tt
  set_field-IsPlain (f ∷ fields) key v a plain = elim (Bool-cases (key == f.name)) [
    | inl h ↦ rw h (plain.0 v a)
    | inr h ↦ rw h (set_field-IsPlain fields key v a plain.1)
  ]

  set_members-IsPlain :
      (fields : List (Field A)) (ms : Members) (a : A) (early : Option Error)
      → ArePlain fields
      → IsPlain early
      → IsPlain (set_members fields ms (a, early)).1
  unfolding set_members
  set_members-IsPlain fields no_members a early plain h = h
  set_members-IsPlain fields (member key v ms) a none plain h =
      set_members-IsPlain fields ms (set_field fields (fold_name key) v a).0
        (set_field fields (fold_name key) v a).1 plain
        (set_field-IsPlain fields (fold_name key) v a plain)
  set_members-IsPlain fields (member key v ms) a (some e) plain h =
      set_members-IsPlain fields ms (set_field fields (fold_name key) v a).0 (some e) plain h

  set_value-IsPlain :
      (type_name : String) (fields : List (Field A)) (target : A) (o : Option Json)
      → ArePlain fields
      → IsPlain (set_value type_name fields target o).1
  unfolding errors_is set_value
  set_value-IsPlain t fields target none plain = refl
  set_value-IsPlain t fields target (some null) plain = tt
  set_value-IsPlain t fields target (some (boolean b)) plain = refl
  set_value-IsPlain t fields target (some (number s)) plain = refl
  set_value-IsPlain t fields target (some (text s)) plain = refl
  set_value-IsPlain t fields target (some (array xs)) plain = refl
  set_value-IsPlain t fields target (some (object ms)) plain =
      set_members-IsPlain fields ms target none plain tt

  -- Where no field's errors are `context.Canceled`, no error of a decoding is.
  pub unmarshal-IsPlain :
      (type_name : String) (fields : List (Field A)) (target : A) (bytes : Bytes)
      → ArePlain fields
      → IsPlain (unmarshal type_name fields target bytes).1
  unfolding unmarshal
  unmarshal-IsPlain t fields target bytes plain =
      set_value-IsPlain t fields target (parse bytes) plain
