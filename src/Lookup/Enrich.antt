-- ===== src/Lookup/Enrich.antt =====
-- internal/lookup/worker.go: completed HLR checks that lack data are asked for again
-- (enrichTerminalHLR), and the round of the worker (Tick).
use sms.Prelude.{
  ℕ, ◌+◌, Bool, true, false, ◌&&◌, ◌||◌, not, Option, none, some, List, [], ◌∷◌, map, take,
  filter_by, ltb, leb, ◌==◌, if◌then◌else◌,
}
use sms.Prelude.Text.{Text, codes}
use sms.Store.Types.{Uuid, LookupItem, Db}
use sms.Store.Rows.{get_client_by_id, is_terminal_status, is_null}
use sms.Webhooks.Deliver.{Answer, deliver_due}
use sms.Lookup.Apply.{
  NormalizedResult, is_blank, is_blank_value, at_key, is_hlr, hlr_fields_improved,
  merge_normalized_with_item,
}
use sms.Lookup.State.{Lifecycle}
use sms.Lookup.Items.{sort_items, bump_lookup_item_enrich_attempt}
use sms.Lookup.Claims.{is_active_client, is_claimed, touch_row}
use sms.Lookup.World.{
  LookupWorld, Outside, Setup, View, item_result, bump_enrich_attempt, enrich_max_attempts,
}
use sms.Lookup.Ending.{with_db, finalize_ready}
use sms.Lookup.Update.{enrich_hlr, patch_item}
use sms.Lookup.Callbacks.{ProviderLookupRequest}
use sms.Lookup.Stored.{apply_stored_callbacks}
use sms.Lookup.Worker.{poll, reconcile_items}
use sms.Lookup.Submit.{after_transition, submit}

-- btrim(imsi) = ''
abbrev pub only_spaces : Text → Bool
only_spaces [] = true
only_spaces (r ∷ s) = r == 32 && only_spaces s

abbrev pub lacks : Option Text → Bool
lacks none = true
lacks (some s) = only_spaces s

abbrev pub has_message_id : Option Text → Bool
has_message_id none = false
has_message_id (some s) = not (is_blank s)

abbrev pub needs_enrich : ℕ → ℕ → Db → LookupItem → Bool
needs_enrich now max_attempts db i =
    is_active_client (get_client_by_id i.client_id db.clients)
    && is_hlr (some i.check_type)
    && is_terminal_status i.status
    && has_message_id i.provider_message_id
    && ltb i.enrich_attempts max_attempts
    && (lacks i.imsi || is_blank_value (at_key i.extras (codes "msc")))
    && leb (i.updated_at + 15_000) now

-- ORDER BY updated_at, id LIMIT $2
unfoldable pub claim_lookup_items_needing_hlr_enrich : ℕ → ℕ → ℕ → Db → List LookupItem × Db
claim_lookup_items_needing_hlr_enrich now max_attempts limit db =
    let claimed = take limit (
      sort_items (λ i. i.updated_at)
        (filter_by (needs_enrich now max_attempts db) db.lookup_items)) in
    (
      map (touch_row now) claimed,
      record db {
        lookup_items =
            map (λ i. if is_claimed claimed i then touch_row now i else i) db.lookup_items;
      },
    )

-- The zero NormalizedResult.
abbrev pub no_result : NormalizedResult
no_result = record {
  provider_code = [];
  check_type = none;
  provider_message_id = [];
  phone_e164 = [];
  lifecycle_status = Lifecycle.other;
  result_status = [];
  is_reachable = none;
  imsi = [];
  mcc = [];
  mnc = [];
  operator_name = [];
  country_code = [];
  ported = none;
  roaming = none;
  provider_error_code = [];
  provider_error_message = [];
  provider_status_code = [];
  cost = [];
  currency = [];
  extras = λ key. none;
}

unfoldable pub patch_enriched : ℕ → LookupItem → NormalizedResult → LookupWorld → LookupWorld
patch_enriched now item enriched w =
    if hlr_fields_improved enriched (item_result item)
    then after_transition w (patch_item now item enriched item.status (item.status ∷ []) false w.db)
    else w

unfoldable pub bump_item : ℕ → Bool → Uuid → LookupWorld → LookupWorld
bump_item now counts item w =
    if counts then with_db w (bump_lookup_item_enrich_attempt now item w.db) else w

unfoldable pub enrich_item : Setup → ℕ → Outside → LookupItem → LookupWorld → LookupWorld
enrich_item setup now out item w =
    let (enriched, invoked) =
      enrich_hlr setup out item (merge_normalized_with_item no_result (item_result item)) in
    bump_item now (bump_enrich_attempt invoked (not out.in_time_after)) item.id
      (patch_enriched now item enriched w)

-- err == nil && cl.Status != active
abbrev pub is_idle_client : Uuid → Db → Bool
is_idle_client client db =
    let found = get_client_by_id client db.clients in
    not (is_null found) && not (is_active_client found)

-- Without time left the loop stops.
unfoldable pub enrich_all :
    Setup → ℕ → (Uuid → Outside) → List LookupItem → LookupWorld → LookupWorld
enrich_all setup now out [] w = w
enrich_all setup now out (item ∷ items) w =
    let skipped = enrich_all setup now out items w in
    let done = enrich_all setup now out items (enrich_item setup now (out item.id) item w) in
    if not (out item.id).in_time
    then w
    else if is_idle_client item.client_id w.db
    then skipped
    else done

unfoldable pub enrich_terminal_hlr : Setup → ℕ → (Uuid → Outside) → LookupWorld → LookupWorld
enrich_terminal_hlr setup now out w =
    if not setup.has_provider
    then w
    else (let (items, db) = claim_lookup_items_needing_hlr_enrich now enrich_max_attempts 8 w.db in
        enrich_all setup now out items (with_db w db))

-- What the clock lets a round do, and the requests recorded when it turns to the callbacks, before
-- anything is sent and after.
pub record Budget : Type 0 where
  pub may_submit : Bool
  pub can_start : Bool
  pub may_poll : Bool
  pub may_enrich : Bool
  pub may_deliver : Bool
  pub reconcile_due : Bool
  pub requests_before : List ProviderLookupRequest
  pub requests_after : List ProviderLookupRequest

-- Tick on callbacks, items, jobs and webhooks: applyStoredCallbacks, submit, poll,
-- applyStoredCallbacks again, enrichTerminalHLR, finalizeReady, DeliverDue and reconcile, in this
-- order, where no CSV file waits for parsePendingCSV: its preview of a file, which adds items and holds
-- for them, is left out.
unfoldable pub lookup_tick :
    Setup → View → ℕ → Budget → (Uuid → Outside) → (Uuid → Answer) → LookupWorld → LookupWorld
lookup_tick setup view now budget out answer w =
    let heard = (apply_stored_callbacks setup now budget.requests_before w).1 in
    let sent =
      (if budget.may_submit then submit setup view now budget.can_start out heard else heard) in
    let polled = (if budget.may_poll then poll setup view now out sent else sent) in
    let again = (apply_stored_callbacks setup now budget.requests_after polled).1 in
    let enriched = (if budget.may_enrich then enrich_terminal_hlr setup now out again else again) in
    let done = finalize_ready setup now enriched in
    let told =
      (if budget.may_deliver
        then record done { hooks = deliver_due now answer 10 done.hooks }
        else done) in
    if budget.reconcile_due then reconcile_items setup view now told else told
