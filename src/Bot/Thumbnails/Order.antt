-- ===== src/Bot/Thumbnails/Order.antt =====
-- Which preview is stored.
use cribe.Prelude.{
  subst, ◌≤◌, ◌<◌, List, [], ◌∷◌, ◌++◌, ◌≡◌, refl, sym, ap, ◌∙◌, arith, ◌⊎◌, inl, inr, append_assoc,
  append-nil, Bool-cases,
}
use mathlib.Core.List.{reverse-append, Perm, reverse_perm, perm_middle}
use mathlib.Core.List.Perm
use cribe.Bot.Services.{Thumbnail}
use cribe.Bot.Thumbnails.{less, sift, sift_all, sort_slice, choose_thumb}

abbrev pub All {ℓ} : {A : Type ℓ} → (A → Type 0) → List A → Type 0
All P [] = Unit
All P (x ∷ xs) = P x × All P xs

abbrev pub Dominates : Thumbnail → Thumbnail → Type 0
Dominates t x = (x.width < t.width) × (x.height < t.height)

abbrev pub Fits : Thumbnail → Type 0
Fits t = (t.width ≤ 320) × (t.height ≤ 320)

abbrev pub TooLarge : Thumbnail → Type 0
TooLarge t = (320 < t.width) ⊎ (320 < t.height)

sift-All :
    (P : Thumbnail → Type 0) (x : Thumbnail) (s : List Thumbnail) → P x → All P s → All P (sift x s)
unfolding sift
sift-All P x [] p h = (p, tt)
sift-All P x (y ∷ s) p h = ground (arith, sift-All P x s p h.1)

sift_all-All :
    (P : Thumbnail → Type 0) (s xs : List Thumbnail) → All P s → All P xs → All P (sift_all s xs)
unfolding sift_all
sift_all-All P s [] h k = h
sift_all-All P s (x ∷ xs) h k = sift_all-All P (sift x s) xs (sift-All P x s k.0 h) k.1

sift_dominating :
    (t : Thumbnail) (s : List Thumbnail) → Fits t → All (Dominates t) s → sift t s ≡ s ++ t ∷ []
unfolding sift less
sift_dominating t [] f h = refl
sift_dominating t (y ∷ s) f h = ground (arith, sift_dominating t s f h.1)

sift_large : (x : Thumbnail) (s : List Thumbnail) → TooLarge x → sift x s ≡ x ∷ s
unfolding sift less
sift_large x [] h = refl
sift_large x (y ∷ s) h = ground arith

sift_all_large :
    (s xs : List Thumbnail)
    → All TooLarge xs
    → (front : List Thumbnail) × (sift_all s xs ≡ front ++ s)
unfolding sift_all
sift_all_large s [] h = ([], refl)
sift_all_large s (x ∷ xs) h =
    let (front, e) = sift_all_large (x ∷ s) xs h.1 in
    (front ++ x ∷ [], rw (sift_large x s h.0) (e ∙ sym (append_assoc front (x ∷ []) s)))

sift_all-append : (s xs ys : List Thumbnail) → sift_all s (xs ++ ys) ≡ sift_all (sift_all s xs) ys
unfolding sift_all
sift_all-append s [] ys = refl
sift_all-append s (x ∷ xs) ys = sift_all-append (sift x s) xs ys

-- What stands last in the sorted part, which is held backwards, is chosen.
choose_last :
    (xs front : List Thumbnail) (t : Thumbnail)
    → sift_all [] xs ≡ front ++ t ∷ []
    → choose_thumb xs ≡ choose_thumb (t ∷ [])
unfolding choose_thumb sort_slice sift_all sift
choose_last xs front t e = rw (e, choose_thumb, sort_slice) (rw (reverse-append front (t ∷ [])))

-- Where a preview fits and exceeds all those before it, and none of those behind it fits, it is the
-- one that is chosen: the largest that Telegram takes, for previews in increasing order.
pub choose_thumb-largest :
    (before after : List Thumbnail) (t : Thumbnail)
    → Fits t
    → All (Dominates t) before
    → All TooLarge after
    → choose_thumb (before ++ t ∷ after) ≡ choose_thumb (t ∷ [])
unfolding sift_all
choose_thumb-largest before after t fits small large =
    let s = sift_all [] before in
    let (front, e) = sift_all_large (s ++ t ∷ []) after large in
    choose_last (before ++ t ∷ after) (front ++ s) t (
      sift_all-append [] before (t ∷ after)
      ∙ (ap (λ (l : List Thumbnail). sift_all l after)
            (sift_dominating t s fits (sift_all-All (Dominates t) [] before tt small))
          ∙ (e ∙ sym (append_assoc front s (t ∷ [])))))

sift_behind :
    (x t : Thumbnail) (front : List Thumbnail)
    → x.width ≤ t.width
    → (front' : List Thumbnail) × (sift x (front ++ t ∷ []) ≡ front' ++ t ∷ [])
unfolding sift less
sift_behind x t [] h = (x ∷ [], ground arith)
sift_behind x t (y ∷ front) h =
    let (front', e) = sift_behind x t front h in
    elim (Bool-cases (less x y)) [
      | inl b ↦ (y ∷ front', ground arith)
      | inr b ↦ (x ∷ y ∷ front, ground arith)
    ]

sift_all_behind :
    (t : Thumbnail) (front xs : List Thumbnail)
    → All (λ x. x.width ≤ t.width) xs
    → (front' : List Thumbnail) × (sift_all (front ++ t ∷ []) xs ≡ front' ++ t ∷ [])
unfolding sift_all
sift_all_behind t front [] h = (front, refl)
sift_all_behind t front (x ∷ xs) h =
    let (front', e) = sift_behind x t front h.0 in rw e (sift_all_behind t front' xs h.1)

-- The first preview stays the first if no other is wider: it is chosen also where it is too large
-- for Telegram and a smaller one would fit.
pub choose_thumb-first :
    (t : Thumbnail) (ts : List Thumbnail)
    → All (λ x. x.width ≤ t.width) ts
    → choose_thumb (t ∷ ts) ≡ choose_thumb (t ∷ [])
unfolding sift_all sift
choose_thumb-first t ts h =
    let (front, e) = sift_all_behind t [] ts h in choose_last (t ∷ ts) front t e

sift-Perm : (x : Thumbnail) (s : List Thumbnail) → Perm (sift x s) (x ∷ s)
unfolding sift
sift-Perm x [] = Perm.refl _
sift-Perm x (y ∷ s) = elim (Bool-cases (less x y)) [
  | inl b ↦ rw b (Perm.trans (Perm.cons y (sift-Perm x s)) (Perm.swap x y s))
  | inr b ↦ rw b (Perm.refl _)
]

sift_all-Perm : (s xs : List Thumbnail) → Perm (sift_all s xs) (xs ++ s)
unfolding sift_all
sift_all-Perm s [] = Perm.refl s
sift_all-Perm s (x ∷ xs) =
    Perm.trans (sift_all-Perm (sift x s) xs)
      (Perm.trans (Perm.append (Perm.refl xs) (sift-Perm x s)) (perm_middle xs s))

-- Sorting loses no preview and makes none up.
pub sort_slice-Perm : (xs : List Thumbnail) → Perm (sort_slice xs) xs
unfolding sort_slice
sort_slice-Perm xs =
    Perm.trans (reverse_perm _)
      (subst (Perm (sift_all [] xs)) (append-nil xs) (sift_all-Perm [] xs))
