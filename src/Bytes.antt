-- ===== src/Bytes.antt =====
-- What the program uses of `encoding/json` and of `[]byte`.
use cribe.Prelude.{String, Option}
use cribe.Errors.{Error}
use cribe.Exec.{Result}

-- The program only passes bytes on, so a slice of bytes is held as a Go string.
abbrev pub Bytes : Type 0
Bytes = String

-- `unmarshal` starts from the value that the target variable holds, and returns what it holds
-- afterwards, also beside an error.
pub record Codec (A : Type 0) : Type 0 where
  pub marshal : A → Result Bytes
  pub unmarshal : A → Bytes → A × Option Error
