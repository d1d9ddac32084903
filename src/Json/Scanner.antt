-- ===== src/Json/Scanner.antt =====
-- How `json.Unmarshal` reads a value of JSON from a text: the pushdown machine of its scanner, which
-- takes one character after the other. A text that is no JSON gives no value, whatever its error is.
use Prim.Native.Char.{Char, code}
use cribe.Prelude.{
  ℕ, ◌+◌, String, ◌<>◌, Bool, true, false, Option, none, some, List, [], ◌∷◌, nat_eq, leb, ◌||◌,
  if◌then◌else◌,
}
use cribe.Json.Values.{
  Json, Items, Members, null, boolean, number, text, array, object, no_items, no_members, add_item,
  add_member,
}
use cribe.Json.Strings
use cribe.Json.Strings.{Reader, reader, Move, read_char}
use cribe.Json.Numbers.{NumberPlace, begin_number, next_place, may_end}

-- The containers around a place, with what was read of them; of an object the key of the value that
-- comes.
pub data Frame : Type 0 where
  in_array : Items → Frame
  in_object : Members → String → Frame

pub data Place : Type 0 where
  -- A value comes; behind `[` also its end, and behind `{` a key or its end.
  value : Place
  value_or_end : Place
  key_or_end : Place
  key : Place
  colon : Place
  -- Behind a value of a container, and behind the whole value.
  behind : Place
  done : Json → Place
  -- In a text, which is a key or a value; in a number; in a word, of which a text is left.
  in_text : Bool → Reader → String → Place
  in_number : NumberPlace → String → Place
  in_word : String → Json → Place

pub record Machine : Type 0 where
  pub place : Place
  pub frames : List Frame

abbrev pub machine : Place → List Frame → Machine
machine place frames = record { place = place; frames = frames }

abbrev pub is_space : ℕ → Bool
is_space n = nat_eq n 32 || nat_eq n 9 || nat_eq n 13 || nat_eq n 10

-- maxNestingDepth
abbrev pub max_depth : ℕ
max_depth = 10000

abbrev depth : List Frame → ℕ
depth [] = 0
depth (f ∷ fs) = 1 + depth fs

abbrev opened : Place → Frame → List Frame → Option Machine
opened place frame frames =
    if leb max_depth (depth frames) then none else some (machine place (frame ∷ frames))

-- Behind a whole value.
unfoldable pub complete : Json → List Frame → Machine
unfolding add_item add_member
complete v [] = machine (done v) []
complete v (in_array xs ∷ fs) = machine behind (in_array (add_item xs v) ∷ fs)
complete v (in_object ms k ∷ fs) = machine behind (in_object (add_member ms k v) "" ∷ fs)

abbrev begun : Option NumberPlace → Char → List Frame → Option Machine
begun none c frames = none
begun (some place) c frames = some (machine (in_number place (String.◌∷◌ c String.[])) frames)

-- The first character of a value.
abbrev begin_value : Char → List Frame → Option Machine
begin_value c frames =
    let n = code c in
    if nat_eq n 34
    then some (machine (in_text false (reader Strings.plain 0) "") frames)
    else if nat_eq n 123
    then opened key_or_end (in_object no_members "") frames
    else if nat_eq n 91
    then opened value_or_end (in_array no_items) frames
    else if nat_eq n 116
    then some (machine (in_word "rue" (boolean true)) frames)
    else if nat_eq n 102
    then some (machine (in_word "alse" (boolean false)) frames)
    else if nat_eq n 110
    then some (machine (in_word "ull" null) frames)
    else begun (begin_number n) c frames

abbrev begin_key : Char → List Frame → Option Machine
begin_key c frames =
    if nat_eq (code c) 34
    then some (machine (in_text true (reader Strings.plain 0) "") frames)
    else none

-- `]`, and `}`
abbrev close_array : List Frame → Option Machine
unfolding complete
close_array (in_array xs ∷ fs) = some (complete (array xs) fs)
close_array frames = none

abbrev close_object : List Frame → Option Machine
unfolding complete
close_object (in_object ms k ∷ fs) = some (complete (object ms) fs)
close_object frames = none

abbrev after_comma : List Frame → Option Machine
after_comma (in_array xs ∷ fs) = some (machine value (in_array xs ∷ fs))
after_comma (in_object ms k ∷ fs) = some (machine key (in_object ms k ∷ fs))
after_comma [] = none

abbrev after_value : Char → List Frame → Option Machine
unfolding close_array close_object
after_value c frames =
    let n = code c in
    if nat_eq n 44
    then after_comma frames
    else if nat_eq n 93
    then close_array frames
    else if nat_eq n 125
    then close_object frames
    else none

abbrev set_key : String → List Frame → Option Machine
set_key k (in_object ms j ∷ fs) = some (machine colon (in_object ms k ∷ fs))
set_key k frames = none

abbrev pub text_ended : Bool → String → List Frame → Option Machine
unfolding complete
text_ended true s frames = set_key s frames
text_ended false s frames = some (complete (text s) frames)

abbrev pub grown : String → String → String
grown s String.[] = s
grown s (String.◌∷◌ c out) = s <> String.◌∷◌ c out

abbrev text_moved : Bool → String → List Frame → Move → Option Machine
unfolding text_ended
text_moved is_key s frames (Move.on out r) = some (machine (in_text is_key r (grown s out)) frames)
text_moved is_key s frames (Move.stop out) = text_ended is_key (grown s out) frames
text_moved is_key s frames Move.bad = none

abbrev in_the_word : String → Json → Char → List Frame → Option Machine
unfolding complete
in_the_word String.[] v c frames = none
in_the_word (String.◌∷◌ d String.[]) v c frames =
    if nat_eq (code c) (code d) then some (complete v frames) else none
in_the_word (String.◌∷◌ d (String.◌∷◌ e s)) v c frames =
    if nat_eq (code c) (code d) then some (machine (in_word (String.◌∷◌ e s) v) frames) else none

-- A character between the values.
abbrev between : Place → Char → List Frame → Option Machine
unfolding close_array close_object after_value
between value c frames = begin_value c frames
between value_or_end c frames =
    if nat_eq (code c) 93 then close_array frames else begin_value c frames
between key_or_end c frames =
    if nat_eq (code c) 125 then close_object frames else begin_key c frames
between key c frames = begin_key c frames
between colon c frames = if nat_eq (code c) 58 then some (machine value frames) else none
between behind c frames = after_value c frames
between place c frames = none

abbrev unless_space : Place → Char → List Frame → Option Machine
unfolding between
unless_space place c frames =
    if is_space (code c) then some (machine place frames) else between place c frames

abbrev again : Char → Machine → Option Machine
unfolding unless_space
again c m = unless_space m.place c m.frames

abbrev number_moved : NumberPlace → String → Char → List Frame → Option NumberPlace → Option Machine
unfolding complete again
number_moved place s c frames (some place') =
    some (machine (in_number place' (s <> String.◌∷◌ c String.[])) frames)
number_moved place s c frames none =
    if may_end place then again c (complete (number s) frames) else none

abbrev step_at : Place → Char → List Frame → Option Machine
unfolding unless_space text_moved number_moved in_the_word read_char
step_at (in_text is_key r s) c frames = text_moved is_key s frames (read_char r c)
step_at (in_number place s) c frames = number_moved place s c frames (next_place place (code c))
step_at (in_word s v) c frames = in_the_word s v c frames
step_at (done v) c frames = unless_space (done v) c frames
step_at value c frames = unless_space value c frames
step_at value_or_end c frames = unless_space value_or_end c frames
step_at key_or_end c frames = unless_space key_or_end c frames
step_at key c frames = unless_space key c frames
step_at colon c frames = unless_space colon c frames
step_at behind c frames = unless_space behind c frames

unfoldable pub step : Machine → Char → Option Machine
unfolding step_at
step m c = step_at m.place c m.frames

-- At the end of the text.
abbrev number_ended : NumberPlace → String → List Frame → Option Json
number_ended place s [] = if may_end place then some (number s) else none
number_ended place s (f ∷ fs) = none

abbrev ended : Place → List Frame → Option Json
ended (done v) frames = some v
ended (in_number place s) frames = number_ended place s frames
ended place frames = none

unfoldable pub run : Machine → String → Option Json
unfolding step
run m String.[] = ended m.place m.frames
run m (String.◌∷◌ c s) = elim (step m c) [ none ↦ none | some m' ↦ run m' s ]

unfoldable pub parse : String → Option Json
unfolding run
parse s = run (machine value []) s
