-- ===== src/Lookup/Counters.antt =====
-- internal/db/sqlc/lookup.sql.go: the statements on lookup_jobs that the worker runs.
use sms.Prelude.{
  ℕ, ◌+◌, Bool, true, false, ◌&&◌, Option, none, some, List, [], ◌∷◌, take, filter_by, length, ltb,
  leb, ◌==◌, if◌then◌else◌,
}
use sms.Prelude.Int.{ℤ, pos, ◌+ℤ◌}
use sms.Prelude.Text.{Text, codes}
use sms.Store.Types.{
  Uuid, BillingAction, capture, LookupItem, item_completed, item_failed, LookupJob, LookupJobStatus,
  job_queued, job_processing, Db,
}
use sms.Store.Messages.{coalesce, holds_text}
use sms.Lookup.State.{status_eq}

-- count(*) … WHERE job_id = j.id AND …
unfoldable pub count_items : (LookupItem → Bool) → Uuid → List LookupItem → ℕ
count_items p job items = length (filter_by (λ (i : LookupItem). i.job_id == job && p i) items)

abbrev pub is_captured : Option BillingAction → Bool
is_captured (some capture) = true
is_captured _ = false

abbrev pub cost_of : Option ℤ → ℤ
cost_of none = pos 0
cost_of (some c) = c

-- COALESCE(sum(actual_cost), 0) of the captured items.
unfoldable pub sum_costs : Uuid → List LookupItem → ℤ
sum_costs job [] = pos 0
sum_costs job (i ∷ is) =
    (if i.job_id == job && is_captured i.billing_action then cost_of i.actual_cost else pos 0)
    +ℤ sum_costs job is

abbrev pub has_status : Text → LookupItem → Bool
has_status s i = holds_text i.result_status s

abbrev pub counted : ℕ → List LookupItem → LookupJob → LookupJob
counted now items j = record j {
  success_count = count_items (λ (i : LookupItem). status_eq i.status item_completed) j.id items;
  failure_count = count_items (λ (i : LookupItem). status_eq i.status item_failed) j.id items;
  reachable_count = count_items (has_status (codes "reachable")) j.id items;
  unreachable_count = count_items (has_status (codes "unreachable")) j.id items;
  actual_cost = some (sum_costs j.id items);
  updated_at = now;
}

-- UPDATE … RETURNING; `none` is no row.
unfoldable pub update_lookup_job :
    (LookupJob → Bool)
    → (LookupJob → LookupJob)
    → List LookupJob
    → Option (LookupJob × List LookupJob)
update_lookup_job may set [] = none
update_lookup_job may set (j ∷ js) =
    if may j
    then some (set j, set j ∷ js)
    else elim (update_lookup_job may set js) [ none ↦ none | some (k, ks) ↦ some (k, j ∷ ks) ]

abbrev pub with_job : Db → Option (LookupJob × List LookupJob) → Option (LookupJob × Db)
with_job db none = none
with_job db (some (j, js)) = some (j, record db { lookup_jobs = js })

unfoldable pub refresh_lookup_job_counters : ℕ → Uuid → Db → Option (LookupJob × Db)
refresh_lookup_job_counters now job db = with_job db (
    update_lookup_job (λ (j : LookupJob). j.id == job) (counted now db.lookup_items) db.lookup_jobs)

-- status IN ('queued', 'processing')
abbrev pub is_running : LookupJobStatus → Bool
is_running job_queued = true
is_running job_processing = true
is_running _ = false

abbrev pub is_running_job : Uuid → LookupJob → Bool
is_running_job job j = j.id == job && is_running j.status

abbrev pub started : ℕ → LookupJob → LookupJob
started now j = record j {
  status = job_processing;
  started_at = coalesce j.started_at (some now);
  updated_at = now;
}

unfoldable pub mark_lookup_job_processing : ℕ → Uuid → Db → Option (LookupJob × Db)
mark_lookup_job_processing now job db =
    with_job db (update_lookup_job (is_running_job job) (started now) db.lookup_jobs)

-- The job's error code and message are left out.
abbrev pub ended : ℕ → LookupJobStatus → LookupJob → LookupJob
ended now status j = record j { status = status; completed_at = some now; updated_at = now }

unfoldable pub finalize_lookup_job : ℕ → LookupJobStatus → Uuid → Db → Option (LookupJob × Db)
finalize_lookup_job now status job db =
    with_job db (update_lookup_job (is_running_job job) (ended now status) db.lookup_jobs)

unfoldable pub insert_job : LookupJob → List LookupJob → List LookupJob
insert_job j [] = j ∷ []
insert_job j (k ∷ ks) = if leb j.updated_at k.updated_at then j ∷ k ∷ ks else k ∷ insert_job j ks

-- ORDER BY updated_at
unfoldable pub sort_jobs : List LookupJob → List LookupJob
sort_jobs [] = []
sort_jobs (j ∷ js) = insert_job j (sort_jobs js)

unfoldable pub list_jobs_needing_finalize : ℕ → List LookupJob → List LookupJob
list_jobs_needing_finalize limit js = take limit (
    sort_jobs (
      filter_by
        (λ (j : LookupJob).
          is_running j.status
          && ltb 0 j.item_count
          && j.item_count == (j.success_count + j.failure_count))
        js))
