-- ===== src/Bot/Jobs/Counts.antt =====
-- How many jobs of each video and kind are in hand.
use cribe.Prelude.{
  ℕ, ◌+◌, ◌-◌, String, true, List, [], ◌∷◌, ◌++◌, ◌≡◌, arith, eq_iff, ◌==◌, ◌&&◌, count,
  count-append, if◌then◌else◌,
}
use cribe.Bot.Services.{Payload}
use cribe.Bot.World.{Job, JobKind}
use cribe.Bot.Jobs.{same_kind, is_job, remove_first, new_job}

abbrev pub in_hand : String → JobKind → List Job → ℕ
in_hand video_id kind = count (is_job video_id kind)

pub same_kind_iff : (k l : JobKind) → same_kind k l ≡ true → k ≡ l
same_kind_iff k l h = ground arith

pub same_kind_refl : (k : JobKind) → same_kind k k ≡ true
same_kind_refl k = ground arith

-- Removing takes away one job of the key, if there is one, and no other.
pub in_hand-remove_first :
    (v u : String) (k l : JobKind) (jobs : List Job)
    → in_hand u l (remove_first v k jobs)
      ≡ in_hand u l jobs - (if v == u && same_kind k l then 1 else 0)
unfolding remove_first
in_hand-remove_first v u k l [] = ground arith
in_hand-remove_first v u k l (j ∷ jobs) =
    ground (
      arith,
      in_hand-remove_first v u k l jobs,
      eq_iff j.video_id v,
      eq_iff j.video_id u,
      eq_iff v u,
    )

pub in_hand-new_job :
    (u : String) (k l : JobKind) (p : Payload) (jobs : List Job)
    → in_hand u l (jobs ++ new_job k p ∷ [])
      ≡ in_hand u l jobs + (if p.video_id == u && same_kind k l then 1 else 0)
in_hand-new_job u k l p jobs = ground (arith, count-append (is_job u l) jobs (new_job k p ∷ []))

pub in_hand-append :
    (u : String) (k : JobKind) (xs ys : List Job)
    → in_hand u k (xs ++ ys) ≡ in_hand u k xs + in_hand u k ys
in_hand-append u k xs ys = count-append (is_job u k) xs ys

-- The counts of a list that jobs are appended to or removed from.
pub ruleset in_hand_laws = (arith, in_hand-remove_first, in_hand-append)

-- A job that is added and then deleted by its key leaves as many jobs of every key as before.
pub in_hand_done :
    (u : String) (k l : JobKind) (p : Payload) (jobs : List Job)
    → in_hand u l (remove_first p.video_id k (jobs ++ new_job k p ∷ [])) ≡ in_hand u l jobs
in_hand_done u k l p jobs = omega in_hand_laws

-- Where the oldest job is of the kind and the video that is to be deleted, it is the one that goes,
-- whichever chat it is for.
pub remove_first_oldest :
    (k : JobKind) (old p : Payload) (jobs : List Job)
    → old.video_id ≡ p.video_id
    → remove_first p.video_id k (new_job k old ∷ jobs) ≡ jobs
unfolding remove_first
remove_first_oldest k old p jobs h = ground (arith, eq_iff old.video_id p.video_id)
