-- ===== src/Lookup/ClosedEndings.antt =====
-- internal/lookup/worker.go: what each single write keeps is kept by the ends of items and jobs.
use sms.Prelude.{ℕ, ◌≡◌, true, false, not, Option, none, some, List, [], ◌∷◌, if◌then◌else◌}
use sms.Prelude.Text.{Text}
use sms.Store.Types.{Uuid, BillingAction, capture, release, LookupItem, LookupJob, Db}
use sms.Billing.Lookup.{capture_for_lookup_item, release_for_lookup_item}
use sms.Lookup.State.{is_terminal_item, is_terminal_job}
use sms.Lookup.Items.{transition_lookup_item}
use sms.Lookup.Counters.{
  refresh_lookup_job_counters, finalize_lookup_job, mark_lookup_job_processing, with_job,
}
use sms.Lookup.World.{LookupWorld, Setup, client_is_deleted}
use sms.Lookup.Submit.{mark_processing}
use sms.Lookup.Ending.{
  with_db, settle_terminal, refresh, enqueue_item, enqueue_job, action_or, on_item_terminal,
  failing, fail_item, release_remainder, finalize_counted, finalize_job, finalize_all,
  finalize_ready,
}
use sms.Lookup.Closed.{Closed, failing-Allowed, if_holds, item_holds, job_holds}

module _ (P : LookupWorld → Type 0) (closed : Closed P) where
  updated_job :
      (o : Option (LookupJob × List LookupJob)) (w : LookupWorld) (r : LookupJob × Db)
      → with_job w.db o ≡ some r
      → P w
      → P (with_db w r.1)
  updated_job none w r e p = absurd (none_some e)
    where
      none_some : ◌≡◌ {A = Option (LookupJob × Db)} none (some r) → ⊥
      none_some x = cc
  updated_job (some (j, js)) w r e p = rw (db_of e) (closed.jobs w js p)
    where
      db_of :
          ◌≡◌ {A = Option (LookupJob × Db)} (some (j, record (w.db) { lookup_jobs = js })) (some r)
          → r.1 ≡ record (w.db) { lookup_jobs = js }
      db_of x = cc

  settle_terminal-Closed :
      (action : Option BillingAction) (id : Uuid) (w : LookupWorld)
      → P w
      → P (settle_terminal action id w)
  unfolding settle_terminal capture_for_lookup_item release_for_lookup_item
  settle_terminal-Closed (some release) id w p = closed.settled id false w p
  settle_terminal-Closed (some capture) id w p = closed.settled id true w p
  settle_terminal-Closed none id w p = p

  pub refresh-Closed : (now : ℕ) (job : Uuid) (w : LookupWorld) → P w → P (refresh now job w)
  unfolding refresh refresh_lookup_job_counters
  refresh-Closed now job w p =
      job_holds P (refresh_lookup_job_counters now job w.db) (λ r. with_db w r.1) p
        λ r e. updated_job _ w r e p

  pub on_item_terminal-Closed :
      (setup : Setup) (now : ℕ) (item : LookupItem) (action : Option BillingAction)
      (w : LookupWorld)
      → P w
      → P (on_item_terminal setup now item action w)
  unfolding on_item_terminal enqueue_item
  on_item_terminal-Closed setup now item action w p =
      if_holds P (not (is_terminal_item item.status)) p (
        if_holds P (client_is_deleted item.client_id w.db) p (
          closed.hooks _ _ (
            refresh-Closed now item.job_id _
              (settle_terminal-Closed (action_or action item) item.id w p))))

  pub fail_item-Closed :
      (setup : Setup) (now : ℕ) (item : LookupItem) (code message : Text) (w : LookupWorld)
      → P w
      → P (fail_item setup now item code message w)
  unfolding fail_item
  fail_item-Closed setup now item code message w p =
      if_holds P (client_is_deleted item.client_id w.db) p (
        item_holds P (transition_lookup_item now (failing now item.id code message) w.db) _ p λ r e.
          on_item_terminal-Closed setup now r.0 (some release) (with_db w r.1)
            (closed.items now _ w r.0 r.1 (failing-Allowed now item.id code message) e p))

  release_remainder-Closed : (job : LookupJob) (w : LookupWorld) → P w → P (release_remainder job w)
  unfolding release_remainder
  release_remainder-Closed job w p =
      if_holds P (not (is_terminal_job job.status)) p (closed.remainder job.id w p)

  enqueue_job-Closed :
      (setup : Setup) (now : ℕ) (job : LookupJob) (w : LookupWorld)
      → P w
      → P (enqueue_job setup now job w)
  unfolding enqueue_job
  enqueue_job-Closed setup now job w p =
      if_holds P (is_terminal_job job.status) (closed.hooks w _ p) p

  finalize_counted-Closed :
      (setup : Setup) (now : ℕ) (job : LookupJob) (w : LookupWorld)
      → P w
      → P (finalize_counted setup now job w)
  unfolding finalize_counted finalize_lookup_job
  finalize_counted-Closed setup now job w p = if_holds P _ p (
      job_holds P (finalize_lookup_job now _ job.id w.db)
        (λ r. enqueue_job setup now r.0 (release_remainder r.0 (with_db w r.1))) p
        λ r e.
          enqueue_job-Closed setup now r.0 _
            (release_remainder-Closed r.0 (with_db w r.1) (updated_job _ w r e p)))

  finalize_job-Closed :
      (setup : Setup) (now : ℕ) (id : Uuid) (w : LookupWorld)
      → P w
      → P (finalize_job setup now id w)
  unfolding finalize_job refresh_lookup_job_counters
  finalize_job-Closed setup now id w p =
      job_holds P (refresh_lookup_job_counters now id w.db)
        (λ r.
          if is_terminal_job r.0.status
          then release_remainder r.0 (with_db w r.1)
          else finalize_counted setup now r.0 (with_db w r.1))
        p
        λ r e.
          let counted = updated_job _ w r e p in
          if_holds P (is_terminal_job r.0.status) (release_remainder-Closed r.0 _ counted)
            (finalize_counted-Closed setup now r.0 _ counted)

  finalize_all-Closed :
      (setup : Setup) (now : ℕ) (js : List LookupJob) (w : LookupWorld)
      → P w
      → P (finalize_all setup now js w)
  unfolding finalize_all
  finalize_all-Closed setup now [] w p = p
  finalize_all-Closed setup now (j ∷ js) w p =
      finalize_all-Closed setup now js _ (finalize_job-Closed setup now j.id w p)

  pub finalize_ready-Closed :
      (setup : Setup) (now : ℕ) (w : LookupWorld) → P w → P (finalize_ready setup now w)
  unfolding finalize_ready
  finalize_ready-Closed setup now w p = finalize_all-Closed setup now _ w p

  pub mark_processing-Closed :
      (now : ℕ) (job : Uuid) (w : LookupWorld) → P w → P (mark_processing now job w)
  unfolding mark_processing mark_lookup_job_processing
  mark_processing-Closed now job w p =
      job_holds P (mark_lookup_job_processing now job w.db) (λ r. with_db w r.1) p
        λ r e. updated_job _ w r e p
