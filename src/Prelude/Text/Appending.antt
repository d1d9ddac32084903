-- ===== src/Prelude/Text/Appending.antt =====
-- Texts behind each other.
use Prim.Native.Char.{Char}
use Prim.Native.String.{String, ◌++◌}
use Prim.Native.String.append
use mathlib.Core.Path.{◌≡◌, sym, ap, ◌∙◌}

pub text-append_assoc : (s t u : String) → (s ++ t) ++ u ≡ s ++ (t ++ u)
text-append_assoc String.[] t u =
    ap (λ (x : String). x ++ u) (append.nil t) ∙ sym (append.nil (t ++ u))
text-append_assoc (String.◌∷◌ c s) t u =
    ap (λ (x : String). x ++ u) (append.cons c s t)
    ∙ append.cons c (s ++ t) u
    ∙ ap (String.◌∷◌ c) (text-append_assoc s t u)
    ∙ sym (append.cons c s (t ++ u))

pub text-append-nil : (s : String) → s ++ String.[] ≡ s
text-append-nil String.[] = append.nil String.[]
text-append-nil (String.◌∷◌ c s) = append.cons c s String.[] ∙ ap (String.◌∷◌ c) (text-append-nil s)

-- One more character behind a text, and the rest behind that.
pub text-append_snoc :
    (s t : String) (c : Char) → (s ++ String.◌∷◌ c String.[]) ++ t ≡ s ++ String.◌∷◌ c t
text-append_snoc s t c =
    text-append_assoc s (String.◌∷◌ c String.[]) t
    ∙ ap (λ (x : String). s ++ x) (append.cons c String.[] t ∙ ap (String.◌∷◌ c) (append.nil t))
