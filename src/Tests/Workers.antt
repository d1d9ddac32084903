-- ===== src/Tests/Workers.antt =====
-- The workers, the jobs and the previews at concrete inputs.
use cribe.Prelude.{String, ◌<>◌, ◌⊎◌, Option, none, [], ◌∷◌, ◌≡◌, refl}
use cribe.Errors.{Error}
use cribe.Exec.{ok}
use cribe.Bot.World.{uploading}
use cribe.Bot.Thumbnails.{choose_thumb, sort_slice, sift_all, sift, less}
use cribe.Bot.Thumbnails.Cutting.{choose_thumb-cuts}
use cribe.Bot.Jobs.Slices.{delete_by_position, delete_by_position-eq-remove_first}
use cribe.Prelude.Text.{index}
use Prim.Native.Char.{Char, code}
use cribe.Bot.Jobs.{new_job, remove_first}
use cribe.Tests.Fake.{small}
use cribe.Tests.Pipeline.{later, medium}

abbrev pub join : Error → Option Error → Error
join e merr = e

delete_by_position-eq-remove_first_example :
    delete_by_position "v1" uploading (new_job uploading later ∷ [])
    ≡ ok (remove_first "v1" uploading (new_job uploading later ∷ []))
delete_by_position-eq-remove_first_example =
    delete_by_position-eq-remove_first "v1" uploading (new_job uploading later ∷ [])

sort_slice_test : sort_slice (small ∷ medium ∷ []) ≡ medium ∷ small ∷ []
unfolding sort_slice sift_all sift less
sort_slice_test = refl

choose_thumb-cuts_example :
    ((index "?" medium.url ≡ none) × (choose_thumb (small ∷ medium ∷ []) ≡ ""))
    ⊎ ((d : Char) × (tail : String) × (code d ≡ code "?")
        × (medium.url ≡ choose_thumb (small ∷ medium ∷ []) <> String.◌∷◌ d tail)
        × (index "?" (choose_thumb (small ∷ medium ∷ [])) ≡ none))
choose_thumb-cuts_example =
    choose_thumb-cuts (small ∷ medium ∷ []) (small ∷ []) medium sort_slice_test
