-- ===== src/Lookup/State.antt =====
-- internal/lookup/state.go: the states of items and jobs.
use sms.Prelude.{
  ℕ, ◌+◌, ◌-◌, ◌%◌, ◌≤◌, ◌<◌, ◌≡◌, ◌↔◌, Bool, true, false, ◌&&◌, ◌||◌, Option, none, some, List, [],
  ◌∷◌, arith, any, ltb, ◌==◌, if◌then◌else◌,
}
use sms.Prelude.Int.{ℤ, pos, negsuc, pos_part, neg_part, ◌+ℤ◌, ◌-ℤ◌, ltb_ℤ}
use sms.Store.Types.{
  LookupItemStatus, item_queued, item_reserved, item_pending, item_completed, item_failed,
  LookupJobStatus, job_completed, job_completed_with_errors, job_failed,
}

-- smsc.Lifecycle; `other` is any other string.
pub data Lifecycle : Type 0 where
  accepted pending completed failed other : Lifecycle

abbrev pub status_eq : LookupItemStatus → LookupItemStatus → Bool
status_eq item_queued item_queued = true
status_eq item_reserved item_reserved = true
status_eq item_pending item_pending = true
status_eq item_completed item_completed = true
status_eq item_failed item_failed = true
status_eq _ _ = false

unfoldable pub item_transitions : LookupItemStatus → List LookupItemStatus
item_transitions item_queued = item_reserved ∷ item_failed ∷ []
item_transitions item_reserved = item_pending ∷ item_completed ∷ item_failed ∷ []
item_transitions item_pending = item_completed ∷ item_failed ∷ []
item_transitions item_completed = []
item_transitions item_failed = []

unfoldable pub is_terminal_item : LookupItemStatus → Bool
is_terminal_item status = status_eq status item_completed || status_eq status item_failed

unfoldable pub is_terminal_job : LookupJobStatus → Bool
is_terminal_job job_completed = true
is_terminal_job job_completed_with_errors = true
is_terminal_job job_failed = true
is_terminal_job _ = false

unfoldable pub can_transition_item : LookupItemStatus → LookupItemStatus → Bool
unfolding item_transitions
can_transition_item from to =
    if status_eq from to then true else any (λ next. status_eq next to) (item_transitions from)

abbrev pub is_open_item : LookupItemStatus → Bool
is_open_item item_reserved = true
is_open_item item_queued = true
is_open_item item_pending = true
is_open_item _ = false

-- `none` is the second result false.
unfoldable pub map_lifecycle_to_item_status : Lifecycle → LookupItemStatus → Option LookupItemStatus
map_lifecycle_to_item_status accepted current =
    if is_open_item current then some item_pending else none
map_lifecycle_to_item_status pending current =
    if is_open_item current then some item_pending else none
map_lifecycle_to_item_status completed current = some item_completed
map_lifecycle_to_item_status failed current = some item_failed
map_lifecycle_to_item_status other current = none

-- The counters are int32 columns that count items.
unfoldable pub derive_job_terminal_status : ℕ → ℕ → ℕ → LookupJobStatus
derive_job_terminal_status total success failed_count =
    if total == 0
    then job_failed
    else if failed_count == 0 && success == total
    then job_completed
    else if success == 0 && failed_count == total
    then job_failed
    else job_completed_with_errors

abbrev two_32 : ℕ
two_32 = 4294967296

-- An int32 after wrap-around.
unfoldable pub int32 : ℤ → ℤ
int32 z =
    let u = (pos_part z + (two_32 - neg_part z % two_32)) % two_32 in
    if ltb u 2147483648 then pos u else negsuc (two_32 - u - 1)

pub record Progress : Type 0 where
  pub total : ℤ
  pub processed : ℤ
  pub success : ℤ
  pub failures : ℤ
  pub pending_count : ℤ

unfoldable pub compute_progress : ℤ → ℤ → ℤ → Progress
unfolding int32 ◌+ℤ◌ ◌-ℤ◌
compute_progress item_count success_count failure_count =
    let done = int32 (success_count +ℤ failure_count) in
    let left = int32 (item_count -ℤ done) in
    record {
      total = item_count;
      processed = done;
      success = success_count;
      failures = failure_count;
      pending_count = if ltb_ℤ left (pos 0) then pos 0 else left;
    }

-- A transition of the table leaves a terminal status only to itself, and never leads back to queued.
pub can_transition-terminal :
    (from to : LookupItemStatus)
    → can_transition_item from to ≡ true
    → (is_terminal_item from ≡ true → from ≡ to) × (to ≡ item_queued → from ≡ item_queued)
unfolding can_transition_item is_terminal_item
can_transition-terminal from to e = ground arith

-- When every item of a job is counted as success or failure, the job ends in a terminal status:
-- completed if and only if it has items and none failed, failed if and only if none succeeded.
pub derive_job_terminal_status-lem :
    (total success failed_count : ℕ)
    → success + failed_count ≡ total
    → (is_terminal_job (derive_job_terminal_status total success failed_count) ≡ true)
      × ((derive_job_terminal_status total success failed_count ≡ job_completed)
          ↔ ((1 ≤ total) × (failed_count ≡ 0)))
      × ((derive_job_terminal_status total success failed_count ≡ job_failed) ↔ (success ≡ 0))
unfolding derive_job_terminal_status is_terminal_job
derive_job_terminal_status-lem total success failed_count e = ground arith

-- With counters that fit an int32 and count no item twice, the items are the processed and the pending
-- ones, and nothing wraps.
pub compute_progress-adds_up :
    (items success failures : ℕ)
    → success + failures ≤ items
    → items < 2147483648
    → let p = compute_progress (pos items) (pos success) (pos failures) in
      (p.processed ≡ pos (success + failures))
      × (p.pending_count ≡ pos (items - (success + failures)))
unfolding compute_progress
compute_progress-adds_up items success failures h k = ground arith
