-- ===== src/Billing/Reaper.antt =====
-- internal/billing/lookup_billing.go, lookup.go: the reaper that settles what the lookup worker left
-- unsettled, item by item, and then releases the remainder of a finished job.
use sms.Prelude.{ℕ, Bool, true, false, ◌||◌, Option, none, some, List, [], ◌∷◌, ltb, if◌then◌else◌}
use sms.Prelude.Text.{Text, codes, text_eq}
use sms.Store.Types.{
  Uuid, BillingAction, capture, release, LookupItemStatus, item_completed, item_failed,
  LookupJobStatus, job_completed, job_completed_with_errors, job_failed, LookupItem, Db,
}
use sms.Store.Rows.{list_unsettled_terminal_lookup_items}
use sms.Store.Joins.{ListOpenLookupJobHoldsRow, list_open_lookup_job_holds}
use sms.Billing.Sms.{count_ok, or_same}
use sms.Billing.Lookup.{
  capture_for_lookup_item, release_for_lookup_item, release_lookup_job_remainder,
}

abbrev pub is_completed : LookupItemStatus → Bool
is_completed item_completed = true
is_completed _ = false

abbrev pub is_failed_item : LookupItemStatus → Bool
is_failed_item item_failed = true
is_failed_item _ = false

abbrev pub is_final_result : Option Text → Bool
is_final_result none = false
is_final_result (some s) =
    text_eq s (codes "reachable") || text_eq s (codes "unreachable") || text_eq s (codes "error")

-- `none` is the empty string.
unfoldable pub lookup_item_settle_action : LookupItem → Option BillingAction
lookup_item_settle_action item = elim item.billing_action [
  | some capture ↦ some capture
  | some release ↦ some release
  | none ↦
      if is_completed item.status
      then some capture
      else if is_final_result item.result_status
      then some capture
      else if is_failed_item item.status
      then some release
      else none
]

-- The switch on the action: `n` counts what went well.
unfoldable pub reap_item_action : Option BillingAction → Uuid → ℕ → Db → ℕ × Db
reap_item_action (some capture) item n db = count_ok n db (capture_for_lookup_item item db)
reap_item_action (some release) item n db = count_ok n db (release_for_lookup_item item db)
reap_item_action none item n db = (n, db)

unfoldable pub reap_lookup_item : LookupItem → ℕ × Db → ℕ × Db
reap_lookup_item item (n, db) = reap_item_action (lookup_item_settle_action item) item.id n db

unfoldable pub reap_lookup_items : List LookupItem → ℕ × Db → ℕ × Db
reap_lookup_items [] acc = acc
reap_lookup_items (item ∷ items) acc = reap_lookup_items items (reap_lookup_item item acc)

abbrev pub is_finished : LookupJobStatus → Bool
is_finished job_completed = true
is_finished job_completed_with_errors = true
is_finished job_failed = true
is_finished _ = false

-- The remainder of a finished job; an error is logged and passed over, and not counted.
unfoldable pub reap_remainder : ListOpenLookupJobHoldsRow → ℕ × Db → ℕ × Db
reap_remainder row (n, db) =
    if is_finished row.job_status
    then (n, or_same db (release_lookup_job_remainder row.lookup_job_id db))
    else (n, db)

-- The items of a job are read when its row's turn comes.
unfoldable pub reap_job_row : ListOpenLookupJobHoldsRow → ℕ × Db → ℕ × Db
reap_job_row row (n, db) = reap_remainder row (
    reap_lookup_items (list_unsettled_terminal_lookup_items row.lookup_job_id db.lookup_items)
      (n, db))

unfoldable pub reap_job_rows : List ListOpenLookupJobHoldsRow → ℕ × Db → ℕ × Db
reap_job_rows [] acc = acc
reap_job_rows (row ∷ rows) acc = reap_job_rows rows (reap_job_row row acc)

-- The rows are read once.
unfoldable pub reap_open_lookup_holds : ℕ → Db → ℕ × Db
reap_open_lookup_holds limit db =
    reap_job_rows (list_open_lookup_job_holds (if ltb limit 1 then 50 else limit) db) (0, db)
