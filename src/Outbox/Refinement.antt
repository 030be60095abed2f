-- ===== src/Outbox/Refinement.antt =====
-- internal/outbox/worker.go, Tick: a round moves every job along the abstract life of a job.
use sms.Prelude.{ℕ, ◌-◌, ◌≡◌, refl, Option, List, [], ◌∷◌, any, ◌==◌}
use sms.Prelude.Text.{Text}
use sms.Store.Types.{Uuid, SendJob}
use sms.Store.Outbox.{reclaim_stale_send_jobs}
use sms.Outbox.World.{World, Outside, stale_processing, claim_batch}
use sms.Outbox.Worker.{process}
use sms.Outbox.Tick.{Round, process_all, claim, reconcile_if_due, tick}
use sms.Outbox.Untouched.{SameJobs-trans}
use sms.Outbox.Reconciling.{reap_open_holds-SameJobs, reconcile_if_due-SameJobs}
use sms.Outbox.Handling.{process-Ends}
use sms.Outbox.Lifecycle.{
  AllLive, no_rows, row, AllLive-refl, AllLive-trans, AllLive-same, Ends-AllLive,
  reclaim_stale_send_jobs-AllLive,
}
use sms.Outbox.Claiming.{NoRepeat, claim_send_jobs_fair-AllLive}

AllLive-any :
    (i : Uuid) {js ks : List SendJob}
    → AllLive js ks
    → any (λ k. i == k.id) ks ≡ any (λ k. i == k.id) js
AllLive-any i no_rows = refl
AllLive-any i (row l ls) = rw (l.same_id, AllLive-any i ls) refl

-- No id repeats afterwards.
pub AllLive-NoRepeat : {js ks : List SendJob} → AllLive js ks → NoRepeat js → NoRepeat ks
AllLive-NoRepeat no_rows n = tt
AllLive-NoRepeat (row {j = j} l ls) n =
    (rw (l.same_id, AllLive-any j.id ls) (n.0), AllLive-NoRepeat ls n.1)

module _ (worker now : ℕ) (decode : Text → Option (Text × Text)) where
  process_all-AllLive :
      (out : Uuid → Outside) (jobs : List SendJob) (w : World)
      → AllLive w.db.send_jobs (process_all worker now decode out jobs w).db.send_jobs
  unfolding process_all
  process_all-AllLive out [] w = AllLive-refl w.db.send_jobs
  process_all-AllLive out (job ∷ jobs) w =
      AllLive-trans (Ends-AllLive worker job.id (process-Ends worker now decode job (out job.id) w))
        (process_all-AllLive out jobs (process worker now decode job (out job.id) w))

  claim-AllLive :
      (w : World)
      → NoRepeat w.db.send_jobs
      → AllLive w.db.send_jobs (claim worker now decode w).1.db.send_jobs
  unfolding claim
  claim-AllLive w n =
      let old = reclaim_stale_send_jobs-AllLive now (now - stale_processing) w.db.send_jobs in
      AllLive-trans old (
        claim_send_jobs_fair-AllLive now worker claim_batch w.db.clients
          (reclaim_stale_send_jobs now (now - stale_processing) w.db.send_jobs)
          (AllLive-NoRepeat old n))

  -- A round of the worker follows the life of a job: in a table of jobs where no id repeats, and
  -- whatever the provider, the limiter and the settings say, it leaves the same rows in the same
  -- places, each for its message and in a status that `Step` leads to from its old one, a done or dead
  -- row as it was; and again no id repeats.
  pub tick-refines :
      (round : Round) (w : World)
      → NoRepeat w.db.send_jobs
      → AllLive w.db.send_jobs (tick worker now decode round w).1.db.send_jobs
        × NoRepeat (tick worker now decode round w).1.db.send_jobs
  unfolding tick
  tick-refines round w n = (lives, AllLive-NoRepeat lives n)
    where
      claimed : List SendJob × World
      claimed = claim worker now decode w

      worked : World
      worked = process_all worker now decode round.of_job claimed.0 claimed.1

      after : World
      after = reconcile_if_due worker now decode round worked

      lives : AllLive w.db.send_jobs (tick worker now decode round w).1.db.send_jobs
      lives = AllLive-trans (claim-AllLive w n) (
          AllLive-trans (process_all-AllLive round.of_job claimed.0 claimed.1) (
            AllLive-same
              (SameJobs-trans (reconcile_if_due-SameJobs worker now decode round worked)
                (reap_open_holds-SameJobs 50 after.db)).jobs))
