-- ===== src/Lookup/Worker.antt =====
-- internal/lookup/worker.go: an item is sent (submitItem), asked for (pollItem), and what a round of
-- the worker does with the items (submit, poll, enrichTerminalHLR, reconcile).
use sms.Prelude.{
  ℕ, ◌+◌, ◌-◌, ◌*◌, ◌/◌, Bool, false, ◌&&◌, ◌||◌, not, none, some, List, [], ◌∷◌, ◌⊎◌, inl, inr,
  ltb, leb, if◌then◌else◌,
}
use sms.Prelude.Text.{codes}
use sms.Store.Types.{Uuid, LookupItem, item_pending}
use sms.Billing.Reaper.{reap_open_lookup_holds}
use sms.Lookup.State.{is_terminal_item}
use sms.Lookup.Apply.{NormalizedResult, is_blank, deref}
use sms.Lookup.Items.{
  transition, transition_lookup_item, list_stale_pending_lookup_items,
  list_stale_reserved_lookup_items,
}
use sms.Lookup.Claims.{claim_pending_lookup_items_fair}
use sms.Lookup.World.{
  LookupWorld, Outside, Setup, View, IoError, is_retryable_lookup_io, is_foreign, failure_code,
  failure_message, backoff, poll_max_attempts, submit_batch_size, fair_clients,
}
use sms.Lookup.Ending.{with_db, fail_item, refresh, finalize_ready}
use sms.Lookup.Update.{ApplyInput, ApplyOutcome, apply_result, apply_provider_update}
use sms.Lookup.Stored.{reopen_callbacks}
use sms.Lookup.Submit.{after_transition}

unfoldable pub reschedule_poll : View → ℕ → LookupItem → LookupWorld → LookupWorld
reschedule_poll view now item w = after_transition w (
    transition_lookup_item now
      (record (transition item_pending item.id (item_pending ∷ [])) {
        next_poll_at = some (now + backoff view.poll_interval_sec (item.poll_attempts + 1));
        poll_attempts = some (item.poll_attempts + 1);
      })
      w.db)

-- applied.BecameTerminal
abbrev pub became_terminal : ApplyOutcome → Bool
became_terminal (apply_result applied duplicate became reason item) = became
became_terminal _ = false

-- The input of ApplyProviderUpdate that a poll makes.
abbrev pub polled : LookupItem → NormalizedResult → ApplyInput
polled item n = record {
  job_item_id = item.id;
  client_id = item.client_id;
  provider_message_id = deref item.provider_message_id;
  normalized = n;
  skip_enrich = false;
}

unfoldable pub on_fetch :
    Setup → View → ℕ → Outside → LookupItem → IoError ⊎ NormalizedResult → LookupWorld → LookupWorld
on_fetch setup view now out item (inl e) w =
    if (is_retryable_lookup_io e || is_foreign e) && ltb (item.poll_attempts + 1) poll_max_attempts
    then reschedule_poll view now item w
    else fail_item setup now item (failure_code (codes "poll_failed") e) (failure_message e) w
on_fetch setup view now out item (inr n) w =
    let (outcome, after) = apply_provider_update setup now out (polled item n) w in
    if became_terminal outcome then after else reschedule_poll view now item after

-- item.SentAt, or item.CreatedAt
abbrev pub start_of : LookupItem → ℕ
start_of item = elim item.sent_at [ none ↦ item.created_at | some t ↦ t ]

abbrev pub has_timed_out : View → ℕ → LookupItem → Bool
has_timed_out view now item =
    leb (start_of item + view.check_timeout_sec * 1000) now
    || leb poll_max_attempts item.poll_attempts

unfoldable pub poll_item : Setup → View → ℕ → Outside → LookupItem → LookupWorld → LookupWorld
poll_item setup view now out item w =
    if is_terminal_item item.status
    then refresh now item.job_id w
    else if is_blank (deref item.provider_message_id)
    then fail_item setup now item (codes "missing_provider_message_id")
        (codes "Cannot poll without provider_message_id") w
    else if has_timed_out view now item
    then fail_item setup now item (codes "check_timeout")
        (codes "Timed out waiting for provider final status") w
    else if not setup.has_provider
    then reschedule_poll view now item w
    else on_fetch setup view now out item out.fetched w

-- releasePendingLease, and what reconcile does with an item that is stale.
unfoldable pub release_pending_lease : ℕ → LookupItem → LookupWorld → LookupWorld
release_pending_lease now item w = after_transition w (
    transition_lookup_item now
      (record (transition item_pending item.id (item_pending ∷ [])) { next_poll_at = some now })
      w.db)

unfoldable pub poll_all :
    Setup → View → ℕ → (Uuid → Outside) → List LookupItem → LookupWorld → LookupWorld
poll_all setup view now out [] w = w
poll_all setup view now out (item ∷ items) w = poll_all setup view now out items (
    if (out item.id).in_time
    then poll_item setup view now (out item.id) item w
    else release_pending_lease now item w)

-- SubmitBatchSize / fairClients items of each of fairClients clients.
unfoldable pub poll : Setup → View → ℕ → (Uuid → Outside) → LookupWorld → LookupWorld
poll setup view now out w =
    let (items, db) =
      claim_pending_lookup_items_fair now fair_clients (submit_batch_size / fair_clients) w.db in
    poll_all setup view now out items (with_db w db)

unfoldable pub touch_stale : ℕ → List LookupItem → LookupWorld → LookupWorld
touch_stale now [] w = w
touch_stale now (item ∷ items) w = touch_stale now items (release_pending_lease now item w)

unfoldable pub fail_stale : Setup → View → ℕ → List LookupItem → LookupWorld → LookupWorld
fail_stale setup view now [] w = w
fail_stale setup view now (item ∷ items) w = fail_stale setup view now items (
    if leb (item.created_at + view.check_timeout_sec * 1000) now
    then fail_item setup now item (codes "reserved_stale_timeout")
        (codes "RESERVED item exceeded check timeout without submit progress") w
    else w)

-- The part of reconcile on callbacks, items, jobs and holds.
unfoldable pub reconcile_items : Setup → View → ℕ → LookupWorld → LookupWorld
reconcile_items setup view now w =
    let touched =
      touch_stale now
        (list_stale_pending_lookup_items (now - view.poll_interval_sec * 1000) 100 w.db)
        (reopen_callbacks now w) in
    let failed =
      fail_stale setup view now
        (list_stale_reserved_lookup_items (now - view.check_timeout_sec * 1000) 100 touched.db)
        touched in
    let done = finalize_ready setup now failed in with_db done (reap_open_lookup_holds 50 done.db).1
