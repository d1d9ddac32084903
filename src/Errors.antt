-- ===== src/Errors.antt =====
-- Go's error values: the package-level sentinels, plain messages and `%w` wrapping
-- (pkg/botstate/session.go, internal/db/database.go, internal/storage/errors.go), with `errors.Is`.
use cribe.Prelude.{String, Bool, true, false}

-- Errors that are compared by identity. The last four belong to the libraries.
pub data Sentinel : Type 0 where
  event_rejected : Sentinel  -- botstate.ErrEventRejected
  session_not_found : Sentinel  -- botstate.ErrSessionNotFound
  state_not_found : Sentinel  -- botstate.ErrStateNotFound
  record_not_found : Sentinel  -- db.ErrNotFound
  key_conflict : Sentinel  -- db.ErrKeyConflict
  no_rows_updated : Sentinel  -- db.ErrNoRowsUpd
  object_not_found : Sentinel  -- storage.ErrNotFound
  canceled : Sentinel  -- context.Canceled
  deadline_exceeded : Sentinel  -- context.DeadlineExceeded
  redis_nil : Sentinel  -- redis.Nil
  no_rows : Sentinel  -- pgx.ErrNoRows

pub data Error : Type 0 where
  sentinel : Sentinel → Error
  message : String → Error  -- errors.New, and fmt.Errorf with no %w
  wrap : String → Error → Error  -- fmt.Errorf("text: %w", err)

abbrev same : Sentinel → Sentinel → Bool
same event_rejected event_rejected = true
same session_not_found session_not_found = true
same state_not_found state_not_found = true
same record_not_found record_not_found = true
same key_conflict key_conflict = true
same no_rows_updated no_rows_updated = true
same object_not_found object_not_found = true
same canceled canceled = true
same deadline_exceeded deadline_exceeded = true
same redis_nil redis_nil = true
same no_rows no_rows = true
same _ _ = false

-- errors.Is(err, target), for a target that is a sentinel
unfoldable pub errors_is : Error → Sentinel → Bool
errors_is (sentinel s) target = same s target
errors_is (message text) target = false
errors_is (wrap text e) target = errors_is e target
