-- ===== src/Storage.antt =====
-- internal/storage/storage.go and the interface Blob of internal/bot/contracts.go: named objects in
-- buckets.
pub mod Fs
pub mod S3
pub mod Keeping
pub mod KeepingS3
use cribe.Prelude.{String}
use cribe.Exec.{Exec}
use cribe.Bytes.{Bytes}

pub record Blob (S : Type 0) : Type 0 where
  pub create_object : String → String → Bytes → Exec S (Unit {0})
  pub delete_object : String → String → Exec S (Unit {0})
  pub get_object : String → String → Exec S Bytes
