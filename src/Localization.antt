-- ===== src/Localization.antt =====
-- internal/localization/func.go: the bundle of translations, which is filled when the program starts.
use cribe.Prelude.{String, Bool, Option, none, some, List, [], ◌∷◌, if◌then◌else◌}
use cribe.Exec.{Result, ok, err, panic}
use cribe.Bytes.{Bytes}

pub record Entry : Type 0 where
  pub name : String
  pub is_dir : Bool

-- The embedded files and the parser of the bundle `B`, which gives the bundle with the messages of
-- one more file.
pub record Resources (B : Type 0) : Type 0 where
  pub join : String → String → String
  pub read_dir : String → Result (List Entry)
  pub read_file : String → Result Bytes
  pub parse : B → Bytes → String → Result B

abbrev path : String
path = "resources"

-- logger.Fatalf ends the program: a panic with its text.
abbrev or_fatal {ℓ κ} : {A : Type ℓ} {B : Type κ} → String → Result A → (A → Result B) → Result B
or_fatal text (ok a) f = f a
or_fatal text (err e) f = panic text
or_fatal text (panic p) f = panic p

module _ {B : Type 0} (fs : Resources B) where
  unfoldable pub load_file : Entry → B → Result B
  load_file entry bundle =
      let name = fs.join path entry.name in
      or_fatal "fs.ReadFile" (fs.read_file name)
        λ bytes. or_fatal "unable parse localization file" (fs.parse bundle bytes name) ok

  -- for _, entry := range dir { if !entry.IsDir() { … } }
  unfoldable pub load_all : List Entry → B → Result B
  load_all [] bundle = ok bundle
  load_all (entry ∷ dir) bundle =
      or_fatal "" (if entry.is_dir then ok bundle else load_file entry bundle) (load_all dir)

  -- once.Do, of the bundle that the package has so far
  abbrev pub make_once : B → Option B → B
  make_once fresh none = fresh
  make_once fresh (some bundle) = bundle

  -- init, of the new bundle for English and the package's bundle; the result is the package's bundle.
  unfoldable pub init : B → Option B → Result (Option B)
  unfolding load_all
  init fresh made =
      or_fatal "fs.ReadDir" (fs.read_dir path)
        λ dir. or_fatal "" (load_all dir (make_once fresh made)) λ bundle. ok (some bundle)
