-- ===== src/Lookup/Ending.antt =====
-- internal/lookup/worker.go: what the end of an item brings with it (onItemTerminal, failItem), and
-- the end of a job (FinalizeJob, releaseRemainder, finalizeReady).
use sms.Prelude.{ℕ, ◌||◌, not, Option, none, some, List, [], ◌∷◌, ◌==◌, if◌then◌else◌}
use sms.Prelude.Int.{pos, ltb_ℤ}
use sms.Prelude.Text.{Text, codes}
use sms.Store.Types.{
  Uuid, BillingAction, capture, release, LookupItem, LookupItemStatus, item_queued, item_reserved,
  item_pending, item_completed, item_failed, LookupJob, Db,
}
use sms.Store.Errors.{ok, err}
use sms.Billing.Sms.{or_same}
use sms.Billing.Lookup.{
  capture_for_lookup_item, release_for_lookup_item, release_lookup_job_remainder,
}
use sms.Billing.Reaper.{lookup_item_settle_action}
use sms.Webhooks.Schedule.{event_for_item_status, event_job_completed}
use sms.Webhooks.Deliver.{enqueue}
use sms.Lookup.State.{
  is_terminal_item, is_terminal_job, derive_job_terminal_status, compute_progress,
}
use sms.Lookup.Items.{Transition, transition, transition_lookup_item}
use sms.Lookup.Counters.{
  refresh_lookup_job_counters, finalize_lookup_job, list_jobs_needing_finalize,
}
use sms.Lookup.World.{LookupWorld, Setup, client_is_deleted}

abbrev pub with_db : LookupWorld → Db → LookupWorld
with_db w db = record w { db = db }

-- The value of the enumeration in the database.
abbrev pub status_text : LookupItemStatus → Text
status_text item_queued = codes "queued"
status_text item_reserved = codes "reserved"
status_text item_pending = codes "pending"
status_text item_completed = codes "completed"
status_text item_failed = codes "failed"

-- An error is logged.
unfoldable pub settle_terminal : Option BillingAction → Uuid → LookupWorld → LookupWorld
settle_terminal (some release) item w = with_db w (or_same w.db (release_for_lookup_item item w.db))
settle_terminal (some capture) item w = with_db w (or_same w.db (capture_for_lookup_item item w.db))
settle_terminal none item w = w

unfoldable pub refresh : ℕ → Uuid → LookupWorld → LookupWorld
refresh now job w = elim (refresh_lookup_job_counters now job w.db) [
  | none ↦ w
  | some (j, db) ↦ with_db w db
]

-- EnqueueItem
unfoldable pub enqueue_item : Setup → ℕ → LookupItem → LookupWorld → LookupWorld
enqueue_item setup now item w = record w {
  hooks =
      (enqueue item.client_id (event_for_item_status (status_text item.status)) setup.max_attempts
        now w.hooks).1;
}

-- EnqueueJob
unfoldable pub enqueue_job : Setup → ℕ → LookupJob → LookupWorld → LookupWorld
enqueue_job setup now job w =
    if is_terminal_job job.status
    then record w {
      hooks = (enqueue job.client_id event_job_completed setup.max_attempts now w.hooks).1;
    }
    else w

-- `action`, or what the item's row says where it is the empty string.
abbrev pub action_or : Option BillingAction → LookupItem → Option BillingAction
action_or (some a) item = some a
action_or none item = lookup_item_settle_action item

unfoldable pub on_item_terminal :
    Setup → ℕ → LookupItem → Option BillingAction → LookupWorld → LookupWorld
on_item_terminal setup now item action w =
    if not (is_terminal_item item.status)
    then w
    else if client_is_deleted item.client_id w.db
    then w
    else enqueue_item setup now item
        (refresh now item.job_id (settle_terminal (action_or action item) item.id w))

abbrev pub open_statuses : List LookupItemStatus
open_statuses = item_queued ∷ item_reserved ∷ item_pending ∷ []

-- TransitionLookupItemParams of failItem.
abbrev pub failing : ℕ → Uuid → Text → Text → Transition
failing now item code message = record (transition item_failed item open_statuses) {
  error_code = some code;
  error_message = some message;
  completed_at = some now;
}

-- Every caller passes `release`.
unfoldable pub fail_item : Setup → ℕ → LookupItem → Text → Text → LookupWorld → LookupWorld
fail_item setup now item code message w =
    if client_is_deleted item.client_id w.db
    then w
    else elim (transition_lookup_item now (failing now item.id code message) w.db) [
      | err e ↦ w
      | ok (updated, db) ↦ on_item_terminal setup now updated (some release) (with_db w db)
    ]

-- An error is logged.
unfoldable pub release_remainder : LookupJob → LookupWorld → LookupWorld
release_remainder job w =
    if not (is_terminal_job job.status)
    then w
    else with_db w (or_same w.db (release_lookup_job_remainder job.id w.db))

unfoldable pub finalize_counted : Setup → ℕ → LookupJob → LookupWorld → LookupWorld
finalize_counted setup now job w =
    let progress =
      compute_progress (pos job.item_count) (pos job.success_count) (pos job.failure_count) in
    if job.item_count == 0 || ltb_ℤ (pos 0) progress.pending_count
    then w
    else elim (finalize_lookup_job now
        (derive_job_terminal_status job.item_count job.success_count job.failure_count) job.id
        w.db) [
          | none ↦ w
          | some (finalized, db) ↦
              enqueue_job setup now finalized (release_remainder finalized (with_db w db))
        ]

unfoldable pub finalize_job : Setup → ℕ → Uuid → LookupWorld → LookupWorld
finalize_job setup now id w = elim (refresh_lookup_job_counters now id w.db) [
  | none ↦ w
  | some (job, db) ↦
      if is_terminal_job job.status
      then release_remainder job (with_db w db)
      else finalize_counted setup now job (with_db w db)
]

unfoldable pub finalize_all : Setup → ℕ → List LookupJob → LookupWorld → LookupWorld
finalize_all setup now [] w = w
finalize_all setup now (j ∷ js) w = finalize_all setup now js (finalize_job setup now j.id w)

unfoldable pub finalize_ready : Setup → ℕ → LookupWorld → LookupWorld
finalize_ready setup now w =
    finalize_all setup now (list_jobs_needing_finalize 20 w.db.lookup_jobs) w
