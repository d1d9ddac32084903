-- ===== src/Tests/Jobs.antt =====
-- Steps on the list of jobs at concrete inputs.
use cribe.Prelude.{◌++◌, [], ◌∷◌, ◌≡◌, arith}
use cribe.Bot.World.{fetching, uploading}
use cribe.Bot.Jobs.{new_job, add_job, delete_job}
use cribe.Bot.Jobs.Commuting.{jobs-commute}
use cribe.Tests.Fake.{request}
use cribe.Tests.Pipeline.{waiting, later}

jobs-commute_example :
    ((delete_job "v1" uploading (delete_job "v1" fetching waiting).1).1
      ≡ (delete_job "v1" fetching (delete_job "v1" uploading waiting).1).1)
    × ((delete_job "v1" uploading (add_job fetching request waiting).1).1
        ≡ (add_job fetching request (delete_job "v1" uploading waiting).1).1)
    × ((add_job uploading later (add_job fetching request waiting).1).1.jobs
        ≡ waiting.jobs ++ new_job fetching request ∷ new_job uploading later ∷ [])
    × ((add_job fetching request (add_job uploading later waiting).1).1.jobs
        ≡ waiting.jobs ++ new_job uploading later ∷ new_job fetching request ∷ [])
jobs-commute_example = jobs-commute waiting fetching uploading request later "v1" "v1" (omega arith)
