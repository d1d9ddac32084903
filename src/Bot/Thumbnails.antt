-- ===== src/Bot/Thumbnails.antt =====
-- internal/bot/fetch.go: the preview that is stored with a video. `sort.Slice` sorts a slice of at
-- most twelve elements by insertion, which is what is modelled; YouTube gives at most five.
pub mod Order
pub mod Cutting
use cribe.Prelude.{
  ℕ, String, Bool, Option, none, some, List, [], ◌∷◌, leb, ltb, ◌&&◌, if◌then◌else◌,
}
use mathlib.Core.List.{reverse}
use cribe.Prelude.Text.{index, slice_to}
use cribe.Bot.Services.{Thumbnail}

-- The function that `sort.Slice` is given.
unfoldable pub less : Thumbnail → Thumbnail → Bool
less a b = ltb b.width a.width && ltb b.height a.height && leb a.width 320 && leb a.height 320

-- One round of the insertion: the sorted part is held backwards, its last element first.
unfoldable pub sift : Thumbnail → List Thumbnail → List Thumbnail
sift x [] = x ∷ []
sift x (y ∷ sorted) = let rest = sift x sorted in if less x y then y ∷ rest else x ∷ y ∷ sorted

unfoldable pub sift_all : List Thumbnail → List Thumbnail → List Thumbnail
sift_all sorted [] = sorted
sift_all sorted (x ∷ xs) = sift_all (sift x sorted) xs

unfoldable pub sort_slice : List Thumbnail → List Thumbnail
sort_slice xs = reverse (sift_all [] xs)

abbrev cut : String → Option ℕ → String
cut url none = ""
cut url (some idx) = slice_to idx url

abbrev first_url : List Thumbnail → String
first_url [] = ""
first_url (t ∷ ts) = cut t.url (index "?" t.url)

-- `thumb` as `fetch` computes it.
unfoldable pub choose_thumb : List Thumbnail → String
choose_thumb thumbnails = first_url (sort_slice thumbnails)
