-- ===== src/Prelude/Text.antt =====
-- Go's `strings.Index` for a text of one character, and the slice `s[:idx]`.
pub mod Cutting
pub mod Appending
use Prim.Native.Nat.{ℕ, zero, suc}
use Prim.Native.Char.{Char, code}
use Prim.Native.String.{String}
use mathlib.Core.Option
use mathlib.Core.Option.{Option, none, some}
use cribe.Prelude.Tests.{nat_eq, if◌then◌else◌}

-- `none` is Go's -1.
unfoldable pub index : Char → String → Option ℕ
index c String.[] = none
index c (String.◌∷◌ d s) =
    let rest = Option.map suc (index c s) in if nat_eq (code d) (code c) then some 0 else rest

-- Positions count characters, which is the same text for a position that `index` found.
unfoldable pub slice_to : ℕ → String → String
slice_to zero s = String.[]
slice_to (suc n) String.[] = String.[]
slice_to (suc n) (String.◌∷◌ c s) = String.◌∷◌ c (slice_to n s)
