-- ===== src/Json/Quoting/RoundTrip.antt =====
-- A text that was written is read back.
use Prim.Native.Char.{Char, code}
use Prim.Native.String.append
use cribe.Prelude.{
  ℕ, suc, ◌+◌, ◌*◌, ◌/◌, ◌%◌, ◌<◌, String, ◌<>◌, Bool, false, some, List, ◌≡◌, refl, sym, ap, ◌∙◌,
  arith, inl, inr, nat_eq, ltb, ◌||◌, Bool-cases,
}
use cribe.Prelude.Text.Appending.{text-append_snoc, text-append-nil}
use cribe.Json.Runes.{rune, rune-code, code-rune}
use cribe.Json.Quoting.{hex, backslashed, control, separator, escape, escaped, quote}
use cribe.Json.Strings.{plain, escaping, unit, Reader, reader, on, hex_value, read_char}
use cribe.Json.Values.{text}
use cribe.Json.Scanner.{Frame, Machine, machine, in_text, value, grown, step, run, complete}

code-hex : (n : ℕ) → n < 16 → hex_value (code (hex n)) ≡ some n
unfolding hex
code-hex n h = ground (arith, code-rune (48 + n), code-rune (87 + n))

-- The last two digits of an escape.
unit-on :
    (l v d : ℕ) (c : Char)
    → hex_value (code c) ≡ some d
    → read_char (reader (unit (suc l) v) 0) c ≡ on "" (reader (unit l (v * 16 + d)) 0)
unfolding read_char
unit-on l v d c e = rw e refl

unit_last :
    (v d : ℕ) (c k : Char)
    → hex_value (code c) ≡ some d
    → v * 16 + d ≡ code k
    → code k < 55296
    → read_char (reader (unit 0 v) 0) c ≡ on (String.◌∷◌ k String.[]) (reader plain 0)
unfolding read_char
unit_last v d c k e same small = rw (e, same) (ground (arith, rune-code k))

-- A character that is written by a letter.
named :
    (c : Char) (n : ℕ) (d k : Char)
    → code c ≡ n
    → rune n ≡ k
    → read_char (reader escaping 0) d ≡ on (String.◌∷◌ k String.[]) (reader plain 0)
    → read_char (reader escaping 0) d ≡ on (String.◌∷◌ c String.[]) (reader plain 0)
unfolding rune
named c n d k e r h = cc (rune-code c, ap rune e, r, h)

module _ (is_key : Bool) (frames : List Frame) where
  abbrev reading : Reader → String → Machine
  reading r s = machine (in_text is_key r s) frames

  -- What the reader of texts does, the machine does.
  run-on :
      (r r' : Reader) (c : Char) (out s rest : String)
      → read_char r c ≡ on out r'
      → run (reading r s) (String.◌∷◌ c rest) ≡ run (reading r' (grown s out)) rest
  unfolding run step
  run-on r r' c out s rest e = rw (e, run) refl

  run_digits :
      (hi lo : ℕ) (v : ℕ) (k : Char) (s rest : String)
      → hi < 16
      → lo < 16
      → (v * 16 + hi) * 16 + lo ≡ code k
      → code k < 55296
      → run (reading (reader (unit 1 v) 0) s) (String.◌∷◌ (hex hi) (String.◌∷◌ (hex lo) rest))
        ≡ run (reading (reader plain 0) (s <> String.◌∷◌ k String.[])) rest
  run_digits hi lo v k s rest a b same small =
      run-on (reader (unit 1 v) 0) (reader (unit 0 (v * 16 + hi)) 0) (hex hi) "" s
        (String.◌∷◌ (hex lo) rest) (unit-on 0 v hi (hex hi) (code-hex hi a))
      ∙ run-on (reader (unit 0 (v * 16 + hi)) 0) (reader plain 0) (hex lo) (String.◌∷◌ k String.[])
          s rest (unit_last (v * 16 + hi) lo (hex lo) k (code-hex lo b) same small)

  run-control :
      (c : Char) (s rest : String)
      → code c < 256
      → run (reading (reader plain 0) s) (control (code c) rest)
        ≡ run (reading (reader plain 0) (s <> String.◌∷◌ c String.[])) rest
  unfolding run step read_char
  run-control c s rest h =
      run_digits (code c / 16) (code c % 16) 0 c s rest (omega arith) (omega arith) (omega arith)
        (omega arith)

  run-separator :
      (c : Char) (s rest : String)
      → 8224 < code c
      → code c < 8240
      → run (reading (reader plain 0) s) (separator (code c) rest)
        ≡ run (reading (reader plain 0) (s <> String.◌∷◌ c String.[])) rest
  unfolding run step read_char
  run-separator c s rest a b =
      run_digits 2 (code c % 16) 32 c s rest (omega arith) (omega arith) (omega arith) (omega arith)

  run-backslashed :
      (d k : Char) (s rest : String)
      → read_char (reader escaping 0) d ≡ on (String.◌∷◌ k String.[]) (reader plain 0)
      → run (reading (reader plain 0) s) (backslashed d rest)
        ≡ run (reading (reader plain 0) (s <> String.◌∷◌ k String.[])) rest
  run-backslashed d k s rest e =
      run-on (reader plain 0) (reader escaping 0) "\\" "" s (String.◌∷◌ d rest)
        (unfold read_char in refl)
      ∙ run-on (reader escaping 0) (reader plain 0) d (String.◌∷◌ k String.[]) s rest e

  -- One character that was written is read, and nothing is pending behind it.
  run-escape :
      (c : Char) (s rest : String)
      → run (reading (reader plain 0) s) (escape c rest)
        ≡ run (reading (reader plain 0) (s <> String.◌∷◌ c String.[])) rest
  unfolding escape read_char
  run-escape c s rest =
      let n = code c in
      elim (Bool-cases (nat_eq n 34 || nat_eq n 92)) [
        | inl a ↦ rw a (run-backslashed c c s rest (ground arith))
        | inr a ↦ elim (Bool-cases (nat_eq n 10)) [
          | inl b ↦
              rw (a, b)
                (run-backslashed "n" c s rest (named c 10 "n" "\n" (ground arith) refl refl))
          | inr b ↦ elim (Bool-cases (nat_eq n 13)) [
            | inl x ↦
                rw (a, b, x)
                  (run-backslashed "r" c s rest (named c 13 "r" "\r" (ground arith) refl refl))
            | inr x ↦ elim (Bool-cases (nat_eq n 9)) [
              | inl y ↦
                  rw (a, b, x, y)
                    (run-backslashed "t" c s rest (named c 9 "t" "\t" (ground arith) refl refl))
              | inr y ↦ elim (Bool-cases (ltb n 32 || nat_eq n 38 || nat_eq n 60 || nat_eq n 62)) [
                | inl z ↦ rw (a, b, x, y, z) (run-control c s rest (ground arith))
                | inr z ↦ elim (Bool-cases (nat_eq n 8232 || nat_eq n 8233)) [
                  | inl u ↦
                      rw (a, b, x, y, z, u) (run-separator c s rest (ground arith) (ground arith))
                  | inr u ↦
                      rw (a, b, x, y, z, u)
                        (run-on (reader plain 0) (reader plain 0) c (String.◌∷◌ c String.[]) s rest
                          (ground arith))
                ]
              ]
            ]
          ]
        ]
      ]

  run-escaped :
      (t s rest : String)
      → run (reading (reader plain 0) s) (escaped t (String.◌∷◌ "\"" rest))
        ≡ run (reading (reader plain 0) (s <> t)) (String.◌∷◌ "\"" rest)
  unfolding escaped
  run-escaped String.[] s rest =
      ap (λ (x : String). run (reading (reader plain 0) x) (String.◌∷◌ "\"" rest))
        (sym (text-append-nil s))
  run-escaped (String.◌∷◌ c t) s rest =
      run-escape c s (escaped t (String.◌∷◌ "\"" rest))
      ∙ run-escaped t (s <> String.◌∷◌ c String.[]) rest
      ∙ ap (λ (x : String). run (reading (reader plain 0) x) (String.◌∷◌ "\"" rest))
          (text-append_snoc s t c)

-- Where a value comes, a text that was written is read as it was, whatever stands behind it.
pub run-quote :
    (frames : List Frame) (s rest : String)
    → run (machine value frames) (quote s rest) ≡ run (complete (text s) frames) rest
unfolding run step read_char quote
run-quote frames s rest =
    run-escaped false frames s "" rest
    ∙ ap (λ (x : String). run (complete (text x) frames) rest) (append.nil s)
