-- ===== src/Db/Table.antt =====
-- What the bot relies on of the database of metadata, the interface MetadataDB of
-- internal/bot/contracts.go, in the terms of the upsert of internal/db/metadata.go.
use cribe.Prelude.{String, Option, none, some, ◌≡◌, ◌⊎◌, ◌==◌, ◌&&◌, true, if◌then◌else◌}
use cribe.Errors.{Error, record_not_found, errors_is}
use cribe.Exec.{ok, err}
use cribe.Db.{Metadata, MetadataDb}

-- The row of a video, a type and a quality.
abbrev pub Rows : Type 0
Rows = String → String → String → Option Metadata

-- ON CONFLICT … DO UPDATE: the row keeps when it was created.
abbrev pub updated : Option Metadata → Metadata → Metadata
updated none x = x
updated (some old) x = record x { created_at = old.created_at }

abbrev pub put : Metadata → Rows → Rows
put x rows v m q =
    if v == x.video_id && (m == x.mime && q == x.quality)
    then some (updated (rows v m q) x)
    else rows v m q

-- A table of metadata. A call may fail; a fetch that succeeds answers the row, one that reports a
-- missing record tells the truth, and none changes a row; a save that succeeds puts the row and changes
-- no other, and one that does not has put it or has changed nothing.
pub record IsTable {S : Type 0} (db : MetadataDb S) : Type 0 where
  pub rows : S → Rows
  pub fetch-ok :
      (v m q : String) (x : Metadata) (s : S)
      → (db.fetch_by_metadata v m q s).0 ≡ ok x
      → rows s v m q ≡ some x
  pub fetch-absent :
      (v m q : String) (e : Error) (s : S)
      → (db.fetch_by_metadata v m q s).0 ≡ err e
      → errors_is e record_not_found ≡ true
      → rows s v m q ≡ none
  pub fetch-rows : (v m q : String) (s : S) → rows (db.fetch_by_metadata v m q s).1 ≡ rows s
  pub save-ok :
      (x : Metadata) (s : S) → (db.save x s).0 ≡ ok tt → rows (db.save x s).1 ≡ put x (rows s)
  pub save-rows :
      (x : Metadata) (s : S)
      → (rows (db.save x s).1 ≡ rows s) ⊎ (rows (db.save x s).1 ≡ put x (rows s))
