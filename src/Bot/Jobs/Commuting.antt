-- ===== src/Bot/Jobs/Commuting.antt =====
-- Which steps of different workers on the list of jobs commute, as steps on the list itself.
use cribe.Prelude.{
  ◌≤◌, String, true, List, [], ◌∷◌, ◌++◌, ◌≡◌, refl, ap, ◌∙◌, arith, eq_iff, append_assoc, inl, inr,
  Bool-cases,
}
use cribe.Bot.Services.{Payload, zero_payload}
use cribe.Bot.World.{World, Job, JobKind}
use cribe.Bot.Jobs.{is_job, remove_first, add_job, delete_job}
use cribe.Bot.Jobs.Counts.{in_hand, same_kind_iff}

-- Tests of one job by two keys agree only on equal keys.
same_key :
    (v u : String) (k l : JobKind) (job : Job) (jobs : List Job)
    → is_job v k job ≡ true
    → is_job u l job ≡ true
    → remove_first v k jobs ≡ remove_first u l jobs
same_key v u k l job jobs e g =
    let video : v ≡ u = ground (arith, eq_iff job.video_id v, eq_iff job.video_id u) in
    let kind : k ≡ l = ground (arith, same_kind_iff job.kind k, same_kind_iff job.kind l) in
    ap (λ x. remove_first x k jobs) video ∙ ap (λ x. remove_first u x jobs) kind

remove_first_comm :
    (v u : String) (k l : JobKind) (jobs : List Job)
    → remove_first v k (remove_first u l jobs) ≡ remove_first u l (remove_first v k jobs)
unfolding remove_first
remove_first_comm v u k l [] = refl
remove_first_comm v u k l (job ∷ jobs) =
    let rest = remove_first_comm v u k l jobs in
    elim (Bool-cases (is_job v k job)) [
      | inl e ↦ elim (Bool-cases (is_job u l job)) [
        | inl g ↦ rw (e, g) (same_key v u k l job jobs e g)
        | inr g ↦ rw (e, g) (rw e refl)
      ]
      | inr e ↦ elim (Bool-cases (is_job u l job)) [
        | inl g ↦ rw (e, g) refl
        | inr g ↦ rw (e, g) (rw e (ap (λ x. job ∷ x) rest))
      ]
    ]

remove_first-append :
    (v : String) (k : JobKind) (xs ys : List Job)
    → 1 ≤ in_hand v k xs
    → remove_first v k (xs ++ ys) ≡ remove_first v k xs ++ ys
unfolding remove_first
remove_first-append v k [] ys h = absurd (omega arith)
remove_first-append v k (job ∷ xs) ys h =
    let rest = remove_first-append v k xs ys in
    elim (Bool-cases (is_job v k job)) [
      | inl e ↦ rw e refl
      | inr e ↦ rw e (ap (λ x. job ∷ x) (rest (omega (arith, rw e at h))))
    ]

module _ {S : Type 0} where
  -- The steps of different workers commute: deletions, and an append with a deletion that finds its
  -- job in hand, leave the same list in either order; two appends leave the two jobs, with their
  -- kinds, videos and chats, at the end in the order in which they came.
  pub jobs-commute :
      (w : World S) (kind l : JobKind) (p q : Payload) (v u : String)
      → 1 ≤ in_hand v l w.jobs
      → let a : Job = record {
        kind = kind;
        payload = record zero_payload { video_id = p.video_id; chat_id = p.chat_id };
      } in
        let b : Job = record {
          kind = l;
          payload = record zero_payload { video_id = q.video_id; chat_id = q.chat_id };
        } in
        ((delete_job v l (delete_job u kind w).1).1 ≡ (delete_job u kind (delete_job v l w).1).1)
        × ((delete_job v l (add_job kind p w).1).1 ≡ (add_job kind p (delete_job v l w).1).1)
        × ((add_job l q (add_job kind p w).1).1.jobs ≡ w.jobs ++ a ∷ b ∷ [])
        × ((add_job kind p (add_job l q w).1).1.jobs ≡ w.jobs ++ b ∷ a ∷ [])
  unfolding add_job delete_job
  jobs-commute w kind l p q v u h = (
    ap (λ jobs. record w { jobs = jobs }) (remove_first_comm v u l kind w.jobs),
    ap (λ jobs. record w { jobs = jobs }) (remove_first-append v l w.jobs _ h),
    append_assoc w.jobs _ _,
    append_assoc w.jobs _ _,
  )
