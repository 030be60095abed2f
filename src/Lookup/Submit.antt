-- ===== src/Lookup/Submit.antt =====
-- internal/lookup/worker.go: an item is sent to the provider (submit, submitItem,
-- applyTerminalFromSubmit).
use sms.Prelude.{
  ℕ, ◌+◌, ◌*◌, Bool, true, false, ◌||◌, not, Option, none, some, List, [], ◌∷◌, ◌⊎◌, inl, inr,
  if◌then◌else◌,
}
use sms.Prelude.Text.{codes}
use sms.Store.Types.{
  Uuid, Client, active, suspended, deleted, LookupItem, LookupItemStatus, item_queued,
  item_reserved, item_pending, Db,
}
use sms.Store.Errors.{Result, ok, err}
use sms.Store.Rows.{get_client_by_id}
use sms.Billing.Tariffs.{assert_lookup_assignment}
use sms.Billing.Reaper.{lookup_item_settle_action}
use sms.Lookup.State.{is_terminal_item, map_lifecycle_to_item_status}
use sms.Lookup.Items.{Transition, transition, transition_lookup_item}
use sms.Lookup.Claims.{claim_queued_lookup_items_fair, claim_reserved_lookup_items_fair}
use sms.Lookup.Counters.{mark_lookup_job_processing}
use sms.Lookup.World.{
  LookupWorld, Outside, Setup, View, IoError, SubmitResult, is_retryable_lookup_io, failure_code,
  failure_message, str_ptr,
}
use sms.Lookup.Ending.{with_db, on_item_terminal, fail_item}
use sms.Lookup.Update.{report}

-- The statement's row is not used; its errors are logged.
abbrev pub after_transition : LookupWorld → Result (LookupItem × Db) → LookupWorld
after_transition w (ok (i, db)) = with_db w db
after_transition w (err e) = w

abbrev pub unsent : List LookupItemStatus
unsent = item_reserved ∷ item_queued ∷ []

-- The columns of what was sent.
abbrev pub sending : ℕ → Uuid → SubmitResult → LookupItemStatus → Transition
sending now id result to = record (report result.normalized (transition to id unsent)) {
  provider_code = str_ptr result.provider_code;
  provider_message_id = str_ptr result.provider_message_id;
  sent_at = some now;
}

unfoldable pub apply_terminal_from_submit :
    Setup → ℕ → LookupItem → SubmitResult → LookupItemStatus → LookupWorld → LookupWorld
apply_terminal_from_submit setup now item result next w =
    elim (transition_lookup_item now
      (record (sending now item.id result next) { completed_at = some now }) w.db) [
        | err e ↦ w
        | ok (updated, db) ↦
            on_item_terminal setup now updated (lookup_item_settle_action updated) (with_db w db)
      ]

abbrev pub or_pending : Option LookupItemStatus → LookupItemStatus
or_pending none = item_pending
or_pending (some s) = s

unfoldable pub submitted_ok :
    Setup → View → ℕ → LookupItem → SubmitResult → LookupWorld → LookupWorld
submitted_ok setup view now item result w =
    let next =
      or_pending (map_lifecycle_to_item_status result.normalized.lifecycle_status item_reserved) in
    if is_terminal_item next
    then apply_terminal_from_submit setup now item result next w
    else after_transition w (
        transition_lookup_item now
          (record (sending now item.id result item_pending) {
            next_poll_at = some (now + view.poll_interval_sec * 1000);
            poll_attempts = some 0;
          })
          w.db)

unfoldable pub on_submit :
    Setup → View → ℕ → LookupItem → IoError ⊎ SubmitResult → LookupWorld → LookupWorld
on_submit setup view now item (inl e) w =
    if is_retryable_lookup_io e
    then w
    else fail_item setup now item (failure_code (codes "submit_failed") e) (failure_message e) w
on_submit setup view now item (inr result) w = submitted_ok setup view now item result w

-- The tests between the client's and the call.
unfoldable pub submit_active : Setup → View → ℕ → Outside → LookupItem → LookupWorld → LookupWorld
submit_active setup view now out item w =
    elim (assert_lookup_assignment now item.client_id item.check_type w.db) [
      | err e ↦
          fail_item setup now item (codes "tariff_not_configured") (codes "tariff not configured") w
      | ok u ↦
          if not setup.has_provider
          then fail_item setup now item (codes "provider_not_configured")
              (codes "SMSC adapter is not configured") w
          else if out.is_limited
          then w
          else on_submit setup view now item out.submitted w
    ]

unfoldable pub submit_for :
    Option Client → Setup → View → ℕ → Outside → LookupItem → LookupWorld → LookupWorld
submit_for none setup view now out item w =
    fail_item setup now item (codes "client_not_found") (codes "client not found") w
submit_for (some client) setup view now out item w = elim client.status [
  | deleted ↦ w
  | suspended ↦ fail_item setup now item (codes "client_suspended") (codes "client is not active") w
  | active ↦ submit_active setup view now out item w
]

unfoldable pub mark_processing : ℕ → Uuid → LookupWorld → LookupWorld
mark_processing now job w = elim (mark_lookup_job_processing now job w.db) [
  | none ↦ w
  | some (j, db) ↦ with_db w db
]

unfoldable pub submit_item : Setup → View → ℕ → Outside → LookupItem → LookupWorld → LookupWorld
submit_item setup view now out item w =
    let marked = mark_processing now item.job_id w in
    submit_for (get_client_by_id item.client_id marked.db.clients) setup view now out item marked

-- The first item that was claimed.
unfoldable pub submit_claimed :
    Setup → View → ℕ → (Uuid → Outside) → List LookupItem → LookupWorld → LookupWorld
submit_claimed setup view now out [] w = w
submit_claimed setup view now out (item ∷ items) w = submit_item setup view now (out item.id) item w

abbrev pub is_empty_list : List LookupItem → Bool
is_empty_list [] = true
is_empty_list (i ∷ is) = false

unfoldable pub submit_reserved : Setup → View → ℕ → (Uuid → Outside) → LookupWorld → LookupWorld
submit_reserved setup view now out w =
    let (items, db) = claim_reserved_lookup_items_fair now 1 1 w.db in
    submit_claimed setup view now out items (with_db w db)

-- `in_time` is canStartLookupIO.
unfoldable pub submit : Setup → View → ℕ → Bool → (Uuid → Outside) → LookupWorld → LookupWorld
submit setup view now in_time out w =
    if not view.lookup_enabled || not in_time
    then w
    else (let (items, db) = claim_queued_lookup_items_fair now 1 1 w.db in
        if is_empty_list items
        then submit_reserved setup view now out (with_db w db)
        else submit_claimed setup view now out items (with_db w db))
