-- ===== src/Bot/Thumbnails/Cutting.antt =====
-- The text of the preview that is stored.
use Prim.Native.Char.{Char, code}
use cribe.Prelude.{String, none, List, ◌∷◌, ◌<>◌, ◌≡◌, refl, ◌⊎◌, inl, inr, Option-cases}
use cribe.Prelude.Text.{index}
use cribe.Prelude.Text.Cutting.{index-slice_to}
use cribe.Bot.Services.{Thumbnail}
use cribe.Bot.Thumbnails.{sort_slice, choose_thumb}

-- The slice of the first sorted preview's address is in range: it is what stands in front of the first
-- question mark, with none in it, and the empty text if the address has none.
pub choose_thumb-cuts :
    (ts rest : List Thumbnail) (t : Thumbnail)
    → sort_slice ts ≡ t ∷ rest
    → ((index "?" t.url ≡ none) × (choose_thumb ts ≡ ""))
      ⊎ ((d : Char) × (tail : String) × (code d ≡ code "?")
          × (t.url ≡ choose_thumb ts <> String.◌∷◌ d tail)
          × (index "?" (choose_thumb ts) ≡ none))
unfolding choose_thumb
choose_thumb-cuts ts rest t e = elim (Option-cases (index "?" t.url)) [
  | inl n ↦ inl (n, rw (e, n) refl)
  | inr (idx, found) ↦
      let (d, tail, same, split, clear) = index-slice_to "?" t.url idx found in
      inr (d, tail, same, rw (e, found) split, rw (e, found) clear)
]
