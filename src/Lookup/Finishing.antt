-- ===== src/Lookup/Finishing.antt =====
-- When a job is finalized, and how.
use sms.Prelude.{
  ℕ, ◌+◌, ◌-◌, ◌≤◌, ◌<◌, ◌≡◌, refl, ap, ◌∙◌, true, false, ◌&&◌, ◌||◌, some, inl, inr, arith,
  Bool-cases, ◌==◌, ==_iff,
}
use sms.Prelude.Int.{pos, ltb_ℤ}
use sms.Store.Types.{LookupJob, LookupJobStatus, Db}
use sms.Lookup.State.{
  is_terminal_job, derive_job_terminal_status, compute_progress, compute_progress-adds_up,
}
use sms.Lookup.Counters.{is_running, is_running_job, ended, finalize_lookup_job}
use sms.Lookup.World.{LookupWorld, Setup}
use sms.Lookup.Ending.{with_db, enqueue_job, release_remainder, finalize_counted, finalize_job}
use sms.Lookup.Settling.{Marks-jobs, release_lookup_job_remainder-Marks}
use sms.Lookup.Recounting.{finalized, job_row, recounted, refreshed}

-- What follows the end of a job leaves the jobs.
told-jobs :
    (setup : Setup) (now : ℕ) (job : LookupJob) (w : LookupWorld)
    → (enqueue_job setup now job w).db.lookup_jobs ≡ w.db.lookup_jobs
unfolding enqueue_job
told-jobs setup now job w = elim (Bool-cases (is_terminal_job job.status)) [
  | inl over ↦ rw (enqueue_job, over) refl
  | inr runs ↦ rw (enqueue_job, runs) refl
]

remainder-jobs :
    (job : LookupJob) (w : LookupWorld)
    → (release_remainder job w).db.lookup_jobs ≡ w.db.lookup_jobs
unfolding release_remainder
remainder-jobs job w = elim (Bool-cases (is_terminal_job job.status)) [
  | inl over ↦
      rw (release_remainder, over) (Marks-jobs (release_lookup_job_remainder-Marks 0 job.id w.db))
  | inr runs ↦ rw (release_remainder, runs) refl
]

running-open : (s : LookupJobStatus) → is_running s ≡ true → is_terminal_job s ≡ false
unfolding is_terminal_job
running-open s e = ground arith

nothing_pending :
    (n s f : ℕ)
    → s + f ≡ n
    → 1 ≤ n
    → n < 2147483648
    → (n == 0 || ltb_ℤ (pos 0) (compute_progress (pos n) (pos s) (pos f)).pending_count) ≡ false
nothing_pending n s f e h k =
    rw (compute_progress-adds_up n s f (omega arith) k).1
      (none_left n (n - (s + f)) h (omega arith))
  where
    none_left : (n m : ℕ) → 1 ≤ n → m ≡ 0 → (n == 0 || ltb_ℤ (pos 0) (pos m)) ≡ false
    none_left n m h z = ground arith

finalize_counted-ends :
    (setup : Setup) (now : ℕ) (j done : LookupJob) (db : Db) (w : LookupWorld)
    → j.success_count + j.failure_count ≡ j.item_count
    → 1 ≤ j.item_count
    → j.item_count < 2147483648
    → finalize_lookup_job now
        (derive_job_terminal_status j.item_count j.success_count j.failure_count)
        j.id
        w.db
      ≡ some (done, db)
    → (finalize_counted setup now j w).db.lookup_jobs ≡ db.lookup_jobs
unfolding finalize_counted
finalize_counted-ends setup now j done db w all some_items few e =
    rw
      (
        finalize_counted,
        nothing_pending j.item_count j.success_count j.failure_count all some_items few,
        e,
      )
      (told-jobs setup now done (release_remainder done (with_db w db))
        ∙ remainder-jobs done (with_db w db))

some_pending :
    (n s f : ℕ)
    → s + f < n
    → n < 2147483648
    → (n == 0 || ltb_ℤ (pos 0) (compute_progress (pos n) (pos s) (pos f)).pending_count) ≡ true
some_pending n s f h k =
    rw (compute_progress-adds_up n s f (omega arith) k).1 (some_left n (n - (s + f)) (omega arith))
  where
    some_left : (n m : ℕ) → 1 ≤ m → (n == 0 || ltb_ℤ (pos 0) (pos m)) ≡ true
    some_left n m h = ground arith

finalize_counted-waits :
    (setup : Setup) (now : ℕ) (j : LookupJob) (w : LookupWorld)
    → j.success_count + j.failure_count < j.item_count
    → j.item_count < 2147483648
    → (finalize_counted setup now j w).db.lookup_jobs ≡ w.db.lookup_jobs
unfolding finalize_counted
finalize_counted-waits setup now j w h few =
    rw (finalize_counted, some_pending j.item_count j.success_count j.failure_count h few) refl

finalize_job-ends :
    (setup : Setup) (now : ℕ) (w : LookupWorld) (job : LookupJob)
    → job_row job.id w.db.lookup_jobs ≡ some job
    → is_running job.status ≡ true
    → let s = (recounted now w job).success_count in
      let f = (recounted now w job).failure_count in
      s + f ≡ job.item_count
      → 1 ≤ job.item_count
      → job.item_count < 2147483648
      → job_row job.id (finalize_job setup now job.id w).db.lookup_jobs
        ≡ some (ended now (derive_job_terminal_status job.item_count s f) (recounted now w job))
unfolding finalize_job finalize_counted
finalize_job-ends setup now w job e runs all some_items few =
    let own = (==_iff job.id job.id).1 refl in
    let (ks, r, row) = refreshed now job.id w e own in
    let j = recounted now w job in
    let w1 = with_db w (record (w.db) { lookup_jobs = ks }) in
    let status = derive_job_terminal_status job.item_count j.success_count j.failure_count in
    let (ls, u, last) = finalized now status job.id w1.db row (running_row job runs) in
    rw (finalize_job, r, running-open job.status runs)
      (ap (job_row job.id) (
          finalize_counted-ends setup now j (ended now status j)
            (record (w1.db) { lookup_jobs = ls }) w1 all some_items few u)
        ∙ last)
  where
    running_row : (j : LookupJob) → is_running j.status ≡ true → is_running_job j.id j ≡ true
    running_row j e = rw e (own (j.id))
      where
        own : (n : ℕ) → (n == n && true) ≡ true
        own n = ground (arith, (==_iff n n).1 refl)

finalize_job-waits :
    (setup : Setup) (now : ℕ) (w : LookupWorld) (job : LookupJob)
    → job_row job.id w.db.lookup_jobs ≡ some job
    → is_running job.status ≡ true
    → (recounted now w job).success_count + (recounted now w job).failure_count < job.item_count
    → job.item_count < 2147483648
    → job_row job.id (finalize_job setup now job.id w).db.lookup_jobs ≡ some (recounted now w job)
unfolding finalize_job
finalize_job-waits setup now w job e runs open_items few =
    let (ks, r, row) = refreshed now job.id w e ((==_iff job.id job.id).1 refl) in
    let w1 = with_db w (record (w.db) { lookup_jobs = ks }) in
    rw (finalize_job, r, running-open job.status runs)
      (ap (job_row job.id)
          (finalize_counted-waits setup now (recounted now w job) w1 open_items few)
        ∙ row)

-- A running job of fewer than 2 ^ 31 items, at least one, is finalized exactly when all of them are
-- counted as completed or failed: then its row gets the status that these numbers give, and while
-- some are not, it keeps its status, with the counters refreshed.
pub finalize_job-when_counted :
    (setup : Setup) (now : ℕ) (w : LookupWorld) (job : LookupJob)
    → job_row job.id w.db.lookup_jobs ≡ some job
    → is_running job.status ≡ true
    → 1 ≤ job.item_count
    → job.item_count < 2147483648
    → let s = (recounted now w job).success_count in
      let f = (recounted now w job).failure_count in
      let after = job_row job.id (finalize_job setup now job.id w).db.lookup_jobs in
      (s + f ≡ job.item_count
        → after
          ≡ some (ended now (derive_job_terminal_status job.item_count s f) (recounted now w job)))
      × (s + f < job.item_count → after ≡ some (recounted now w job))
finalize_job-when_counted setup now w job e runs some_items few = (
  λ all. finalize_job-ends setup now w job e runs all some_items few,
  λ waits. finalize_job-waits setup now w job e runs waits few,
)
