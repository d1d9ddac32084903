-- ===== src/Json/Strings.antt =====
-- How `json.Unmarshal` reads a text behind its opening quote, one character at a time.
use Prim.Native.Char.{Char, code}
use cribe.Prelude.{
  ℕ, zero, suc, ◌+◌, ◌-◌, ◌*◌, String, Bool, Option, none, some, nat_eq, ltb, leb, ◌&&◌, ◌||◌,
  if◌then◌else◌,
}
use cribe.Json.Runes.{rune, replacement}

-- Between two characters, behind a backslash, or in the four digits of `\uXXXX`: how many are left
-- behind the next, and the number so far. `pending` is a surrogate that no other has followed yet, or 0.
pub data Place : Type 0 where
  plain : Place
  escaping : Place
  unit : ℕ → ℕ → Place

pub record Reader : Type 0 where
  pub place : Place
  pub pending : ℕ

abbrev pub reader : Place → ℕ → Reader
reader place pending = record { place = place; pending = pending }

-- What one character does: it adds a text and the reading goes on, it ends the text, or it is an error.
pub data Move : Type 0 where
  on : String → Reader → Move
  stop : String → Move
  bad : Move

abbrev one : Char → String
one c = String.◌∷◌ c String.[]

-- A surrogate without its other half becomes the replacement character.
abbrev flush : ℕ → String → String
flush zero s = s
flush (suc n) s = String.◌∷◌ replacement s

abbrev is_high : ℕ → Bool
is_high n = leb 55296 n && ltb n 56320

abbrev is_low : ℕ → Bool
is_low n = leb 56320 n && ltb n 57344

-- The character of `\uXXXX`, behind what was pending.
abbrev unit_read : ℕ → ℕ → Move
unfolding rune
unit_read pending n =
    if is_high pending && is_low n
    then on (one (rune (65536 + (pending - 55296) * 1024 + (n - 56320)))) (reader plain 0)
    else if is_high n || is_low n
    then on (flush pending "") (reader plain n)
    else on (flush pending (one (rune n))) (reader plain 0)

abbrev pub hex_value : ℕ → Option ℕ
hex_value n =
    if leb 48 n && leb n 57
    then some (n - 48)
    else if leb 97 n && leb n 102
    then some (n - 87)
    else if leb 65 n && leb n 70
    then some (n - 55)
    else none

abbrev in_unit : ℕ → ℕ → ℕ → Option ℕ → Move
in_unit pending left value none = bad
in_unit pending zero value (some d) = unit_read pending (value * 16 + d)
in_unit pending (suc left) value (some d) = on "" (reader (unit left (value * 16 + d)) pending)

abbrev in_escape : ℕ → Char → Move
in_escape pending c =
    let n = code c in
    let char = λ (d : Char). on (flush pending (one d)) (reader plain 0) in
    if nat_eq n 34 || nat_eq n 92 || nat_eq n 47
    then char c
    else if nat_eq n 98
    then char "\u{8}"
    else if nat_eq n 102
    then char "\u{c}"
    else if nat_eq n 110
    then char "\n"
    else if nat_eq n 114
    then char "\r"
    else if nat_eq n 116
    then char "\t"
    else if nat_eq n 117
    then on "" (reader (unit 3 0) pending)
    else bad

abbrev in_plain : ℕ → Char → Move
in_plain pending c =
    let n = code c in
    if nat_eq n 34
    then stop (flush pending "")
    else if nat_eq n 92
    then on "" (reader escaping pending)
    else if ltb n 32
    then bad
    else on (flush pending (one c)) (reader plain 0)

abbrev read_at : Place → ℕ → Char → Move
unfolding unit_read
read_at plain pending c = in_plain pending c
read_at escaping pending c = in_escape pending c
read_at (unit left value) pending c = in_unit pending left value (hex_value (code c))

unfoldable pub read_char : Reader → Char → Move
unfolding read_at
read_char r c = read_at r.place r.pending c
