-- ===== src/Prelude/Text/Cutting.antt =====
-- What `index` finds and `slice_to` leaves.
use Prim.Native.Nat.{ℕ, suc}
use Prim.Native.Char.{Char, code}
use Prim.Native.String.{String, ◌++◌}
use Prim.Native.String.append
use mathlib.Core.Path.{◌≡◌, refl, sym, ap, ◌∙◌}
use mathlib.Core.Logic.{inl, inr}
use mathlib.Core.Option.{none, some}
use native.Mathlib.Omega.{arith}
use cribe.Prelude.Tests.{nat_eq, Bool-cases, Option-cases}
use cribe.Prelude.Text.{index, slice_to}

-- The slice in front of the character's first place is followed by it, and does not have it.
pub index-slice_to :
    (c : Char) (s : String) (n : ℕ)
    → index c s ≡ some n
    → (d : Char) × (rest : String) × (code d ≡ code c)
      × (s ≡ slice_to n s ++ String.◌∷◌ d rest)
      × (index c (slice_to n s) ≡ none)
unfolding index slice_to
index-slice_to c String.[] n h = cc
index-slice_to c (String.◌∷◌ d s) n h = elim (Bool-cases (nat_eq (code d) (code c))) [
  | inl e ↦
      let z : n ≡ 0 = cc (rw e at h) in
      rw z (d, s, ground arith, sym (append.nil (String.◌∷◌ d s)), refl)
  | inr e ↦ elim (Option-cases (index c s)) [
    | inl none_left ↦ cc (rw (e, none_left) at h)
    | inr (m, found) ↦
        let (d', rest, same, split, clear) = index-slice_to c s m found in
        let z : n ≡ suc m = cc (rw (e, found) at h) in
        rw z (
          d',
          rest,
          same,
          ap (String.◌∷◌ d) split ∙ sym (append.cons d (slice_to m s) (String.◌∷◌ d' rest)),
          rw (e, clear) refl,
        )
  ]
]
