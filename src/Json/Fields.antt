-- ===== src/Json/Fields.antt =====
-- How `json.Unmarshal` fills the fields of a struct, and `json.Marshal` writes them.
pub mod Errors
use Prim.Native.Char.{Char, code}
use cribe.Prelude.{
  ◌+◌, String, ◌<>◌, Option, none, some, List, [], ◌∷◌, nat_eq, leb, ◌&&◌, ◌==◌, if◌then◌else◌,
}
use cribe.Prelude.Decimal.{ℤ}
use cribe.Errors.{Error, message}
use cribe.Bytes.{Bytes}
use cribe.Json.Runes.{rune}
use cribe.Json.Numbers.{parse_int}
use cribe.Json.Values.{
  Json, null, boolean, number, text, array, object, Members, no_members, member,
}
use cribe.Json.Scanner.{parse}

-- A text in front of another.
abbrev pub onto : String → String → String
onto String.[] t = t
onto (String.◌∷◌ c s) t = String.◌∷◌ c (onto s t)

-- What an error calls a value.
abbrev kind_of : Json → String
kind_of null = "null"
kind_of (boolean b) = "bool"
kind_of (number s) = "number"
kind_of (text s) = "string"
kind_of (array xs) = "array"
kind_of (object ms) = "object"

-- UnmarshalTypeError
abbrev mismatch : String → String → String → Error
mismatch value place type_name =
    message (
      "json: cannot unmarshal "
      <> (value <> (" into Go " <> (place <> (" of type " <> type_name)))))

-- SyntaxError. What it says of the character is left out.
abbrev pub syntax_error : Error
syntax_error = message "json: syntax error"

-- A field: its name in JSON, and what a value makes of the struct.
pub record Field (A : Type 0) : Type 0 where
  pub name : String
  pub set : Json → A → A × Option Error

abbrev in_struct : String → String → String
in_struct type_name name = "struct field " <> (type_name <> ("." <> name))

module _ {A : Type 0} where
  abbrev text_set : String → String → (String → A → A) → Json → A → A × Option Error
  text_set place go_type put (text s) a = (put s a, none)
  text_set place go_type put null a = (a, none)
  text_set place go_type put v a = (a, some (mismatch (kind_of v) place go_type))

  abbrev number_set : String → (ℤ → A → A) → String → Option ℤ → A → A × Option Error
  number_set place put s none a = (a, some (mismatch ("number " <> s) place "int64"))
  number_set place put s (some n) a = (put n a, none)

  abbrev int_set : String → (ℤ → A → A) → Json → A → A × Option Error
  unfolding parse_int
  int_set place put (number s) a = number_set place put s (parse_int s) a
  int_set place put null a = (a, none)
  int_set place put v a = (a, some (mismatch (kind_of v) place "int64"))

  -- A field of a struct, of type string or of a type of the program's whose values are texts.
  unfoldable pub text_field : String → String → String → (String → A → A) → Field A
  text_field type_name name go_type put = record {
    name = name;
    set = text_set (in_struct type_name name) go_type put;
  }

  -- Of type int64.
  unfoldable pub int_field : String → String → (ℤ → A → A) → Field A
  unfolding int_set
  int_field type_name name put = record {
    name = name;
    set = int_set (in_struct type_name name) put;
  }

-- A key is a field's name up to the case of letters; the Kelvin sign and the long s fold to letters.
abbrev fold_char : Char → Char
unfolding rune
fold_char c =
    let n = code c in
    if leb 65 n && leb n 90
    then rune (n + 32)
    else if nat_eq n 8490
    then "k"
    else if nat_eq n 383
    then "s"
    else c

unfoldable pub fold_name : String → String
unfolding fold_char
fold_name String.[] = String.[]
fold_name (String.◌∷◌ c s) = String.◌∷◌ (fold_char c) (fold_name s)

-- The first error is kept, and the decoding goes on.
abbrev first : Option Error → Option Error → Option Error
first (some e) late = some e
first none late = late

module _ {A : Type 0} where
  abbrev marked : Option Error → A × Option Error → A × Option Error
  marked early (a, late) = (a, first early late)

  unfoldable pub set_field : List (Field A) → String → Json → A → A × Option Error
  set_field [] key v a = (a, none)
  set_field (field ∷ fields) key v a =
      let rest = set_field fields key v a in if key == field.name then field.set v a else rest

  unfoldable pub set_members : List (Field A) → Members → A × Option Error → A × Option Error
  unfolding set_field fold_name
  set_members fields no_members (a, e) = (a, e)
  set_members fields (member key v members) (a, e) =
      set_members fields members (marked e (set_field fields (fold_name key) v a))

  abbrev pub set_value : String → List (Field A) → A → Option Json → A × Option Error
  unfolding set_members
  set_value type_name fields target none = (target, some syntax_error)
  set_value type_name fields target (some (object members)) =
      set_members fields members (target, none)
  set_value type_name fields target (some null) = (target, none)
  set_value type_name fields target (some v) =
      (target, some (mismatch (kind_of v) "value" type_name))

  -- A text that is no value leaves the target alone; a value that does not fit a field leaves that
  -- field alone.
  unfoldable pub unmarshal : String → List (Field A) → A → Bytes → A × Option Error
  unfolding set_value
  unmarshal type_name fields target bytes = set_value type_name fields target (parse bytes)
