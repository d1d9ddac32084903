-- ===== src/Db.antt =====
-- internal/db/model.go, and the interface MetadataDB of internal/bot/contracts.go.
pub mod Config
pub mod Table
pub mod Transaction
pub mod Repository
use cribe.Prelude.{ℕ, String}
use cribe.Prelude.Decimal.{ℤ}
use cribe.Exec.{Exec}

pub record VideoParams : Type 0 where
  pub title : String
  pub width : ℤ
  pub height : ℤ
  pub duration : ℤ
  pub thumb : String

-- A `time.Time` is a number of nanoseconds.
pub record Metadata : Type 0 where
  pub video_id : String
  pub quality : String
  pub mime : String
  pub file_id : String
  pub params : VideoParams
  pub created_at : ℕ
  pub updated_at : ℕ

pub record MetadataDb (S : Type 0) : Type 0 where
  pub fetch_by_metadata : String → String → String → Exec S Metadata
  pub save : Metadata → Exec S (Unit {0})
