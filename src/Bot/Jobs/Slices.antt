-- ===== src/Bot/Jobs/Slices.antt =====
-- internal/bot/server.go: `deleteJob` by positions and slices, as the source has it.
use cribe.Prelude.{
  ℕ, zero, suc, ◌+◌, ◌<◌, String, Option, none, some, List, [], ◌∷◌, ◌++◌, length, ◌≡◌, refl, sym,
  ap, ◌∙◌, arith, ◌⊎◌, inl, inr, Bool-cases, if◌then◌else◌,
}
use cribe.Exec.{Result, ok, panic}
use cribe.Bot.World.{Job, JobKind}
use cribe.Bot.Jobs.{is_job, remove_first}

-- What a slice out of range does.
abbrev out_of_range : String
out_of_range = "slice bounds out of range"

module _ {A : Type 0} where
  abbrev cons : A → Result (List A) → Result (List A)
  cons x (ok xs) = ok (x ∷ xs)
  cons x r = r

  -- xs[:n]
  unfoldable pub slice_front : ℕ → List A → Result (List A)
  slice_front zero xs = ok []
  slice_front (suc n) [] = panic out_of_range
  slice_front (suc n) (x ∷ xs) = cons x (slice_front n xs)

  -- xs[n:]
  unfoldable pub slice_back : ℕ → List A → Result (List A)
  slice_back zero xs = ok xs
  slice_back (suc n) [] = panic out_of_range
  slice_back (suc n) (x ∷ xs) = slice_back n xs

  abbrev joined : Result (List A) → Result (List A) → Result (List A)
  joined (ok xs) (ok ys) = ok (xs ++ ys)
  joined (ok xs) r = r
  joined r q = r

-- The position at which the loop breaks, from the position `idx` on.
unfoldable pub find_job : String → JobKind → ℕ → List Job → Option ℕ
find_job video_id kind idx [] = none
find_job video_id kind idx (job ∷ jobs) =
    let rest = find_job video_id kind (idx + 1) jobs in
    if is_job video_id kind job then some idx else rest

-- s.Jobs = append(s.Jobs[:idx], s.Jobs[idx+1:]...)
abbrev delete_at : Option ℕ → List Job → Result (List Job)
delete_at none jobs = ok jobs
delete_at (some idx) jobs = joined (slice_front idx jobs) (slice_back (idx + 1) jobs)

joined-cons : (job : Job) (r q : Result (List Job)) → joined (cons job r) q ≡ cons job (joined r q)
joined-cons job r q = ground arith

delete_at-suc :
    (n : ℕ) (job : Job) (jobs : List Job)
    → delete_at (some (suc n)) (job ∷ jobs) ≡ cons job (delete_at (some n) jobs)
unfolding slice_front slice_back
delete_at-suc n job jobs =
    let e : suc n + 1 ≡ suc (n + 1) = omega arith in
    rw e (joined-cons job (slice_front n jobs) (slice_back (n + 1) jobs))

unfoldable pub delete_by_position : String → JobKind → List Job → Result (List Job)
unfolding find_job slice_front slice_back
delete_by_position video_id kind jobs = delete_at (find_job video_id kind 0 jobs) jobs

module _ (video_id : String) (kind : JobKind) where
  -- The positions of the tail.
  find_job-suc :
      (idx : ℕ) (jobs : List Job)
      → ((find_job video_id kind idx jobs ≡ none) × (find_job video_id kind (idx + 1) jobs ≡ none))
        ⊎ ((n : ℕ) × (find_job video_id kind idx jobs ≡ some n)
            × (find_job video_id kind (idx + 1) jobs ≡ some (suc n)))
  unfolding find_job
  find_job-suc idx [] = inl (refl, refl)
  find_job-suc idx (job ∷ jobs) = elim (Bool-cases (is_job video_id kind job)) [
    | inl e ↦ inr (idx, rw e refl, rw e (ap some (omega arith)))
    | inr e ↦ rw e (find_job-suc (idx + 1) jobs)
  ]

  -- The position that is found is one of the list's.
  find_job-lt-length :
      (idx n : ℕ) (jobs : List Job)
      → find_job video_id kind idx jobs ≡ some n
      → n < idx + length jobs
  unfolding find_job
  find_job-lt-length idx n [] h = ground arith
  find_job-lt-length idx n (job ∷ jobs) h = ground (arith, find_job-lt-length (idx + 1) n jobs)

  -- The slices of `deleteJob` are never out of range, and what they leave is the list without its
  -- first job of the kind and the video, if it has one.
  pub delete_by_position-eq-remove_first :
      (jobs : List Job)
      → delete_by_position video_id kind jobs ≡ ok (remove_first video_id kind jobs)
  unfolding delete_by_position remove_first
  delete_by_position-eq-remove_first [] = refl
  delete_by_position-eq-remove_first (job ∷ jobs) = elim (Bool-cases (is_job video_id kind job)) [
    | inl e ↦ rw e refl
    | inr e ↦ elim (find_job-suc 0 jobs) [
      | inl (a, b) ↦ ground (arith, delete_by_position-eq-remove_first jobs)
      | inr (n, a, b) ↦
          rw (e, b)
            (delete_at-suc n job jobs
              ∙ ap (cons job)
                  (ap (λ o. delete_at o jobs) (sym a) ∙ delete_by_position-eq-remove_first jobs))
    ]
  ]
