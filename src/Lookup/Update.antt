-- ===== src/Lookup/Update.antt =====
-- internal/lookup/worker.go: a report of the provider on an item (ApplyProviderUpdate, enrichHLR,
-- patchItem).
use sms.Prelude.{
  ℕ, ◌+◌, Bool, true, false, ◌&&◌, ◌||◌, not, Option, none, some, List, [], ◌∷◌, inl, inr, ◌==◌,
  if◌then◌else◌,
}
use sms.Prelude.Text.{Text, codes}
use sms.Store.Types.{
  Uuid, LookupItem, LookupItemStatus, item_reserved, item_pending, item_completed, Db,
}
use sms.Store.Errors.{Err, no_rows, Result, ok, err}
use sms.Store.Rows.{get_lookup_item}
use sms.Billing.Reaper.{lookup_item_settle_action}
use sms.Lookup.State.{status_eq, is_terminal_item, map_lifecycle_to_item_status}
use sms.Lookup.Apply.{
  NormalizedResult, is_blank, deref, prefer_string, merge_normalized_with_item, needs_hlr_enrich,
  hlr_fields_improved, merge_enrich, is_hlr,
}
use sms.Lookup.Items.{
  Transition, transition, transition_lookup_item, get_lookup_item_by_provider_message,
}
use sms.Lookup.World.{LookupWorld, Outside, Setup, str_ptr, item_result}
use sms.Lookup.Ending.{with_db, open_statuses, on_item_terminal}

-- The columns of a report.
abbrev pub report : NormalizedResult → Transition → Transition
report n t = record t {
  result_status = str_ptr n.result_status;
  is_reachable = n.is_reachable;
  imsi = str_ptr n.imsi;
  mcc = str_ptr n.mcc;
  mnc = str_ptr n.mnc;
  operator_name = str_ptr n.operator_name;
  country_code = str_ptr n.country_code;
  ported = n.ported;
  roaming = n.roaming;
  normalized_result = some n.extras;
}

abbrev pub if_none {ℓ} : {A : Type ℓ} → Option A → ℕ → Option ℕ
if_none none t = some t
if_none (some a) t = none

-- The timestamps that patchItem adds: instants are milliseconds.
abbrev pub stamped : ℕ → LookupItem → Bool → Transition → Transition
stamped now item true t = record t { completed_at = some now }
stamped now item false t =
    if status_eq t.to_status item_pending
    then record t {
      sent_at = if_none item.sent_at now;
      next_poll_at = if_none item.next_poll_at (now + 30_000);
    }
    else t

abbrev pub patching :
    ℕ → LookupItem → NormalizedResult → LookupItemStatus → List LookupItemStatus → Bool → Transition
patching now item n to from terminal =
    stamped now item terminal (record (report n (transition to item.id from)) {
      provider_message_id =
          str_ptr (prefer_string n.provider_message_id (deref item.provider_message_id));
      error_code = str_ptr n.provider_error_code;
      error_message = str_ptr n.provider_error_message;
    })

unfoldable pub patch_item :
    ℕ
    → LookupItem
    → NormalizedResult
    → LookupItemStatus
    → List LookupItemStatus
    → Bool
    → Db
    → Result (LookupItem × Db)
patch_item now item n to from terminal =
    transition_lookup_item now (patching now item n to from terminal)

-- The merged report, and whether the provider was called.
unfoldable pub enrich_hlr :
    Setup → Outside → LookupItem → NormalizedResult → NormalizedResult × Bool
enrich_hlr setup out item normalized =
    let merged = merge_normalized_with_item normalized (item_result item) in
    let id = prefer_string merged.provider_message_id (deref item.provider_message_id) in
    if not (needs_hlr_enrich merged item.check_type)
    then (merged, false)
    else if not out.can_enrich
    then (merged, false)
    else if is_blank id || not setup.has_provider
    then (merged, false)
    else elim out.enriched [
      | inl failure ↦ (merged, true)
      | inr rich ↦ (merge_enrich merged rich, true)
    ]

-- ApplyInput; 0 is uuid.Nil.
pub record ApplyInput : Type 0 where
  pub job_item_id : Uuid
  pub client_id : Uuid
  pub provider_message_id : Text
  pub normalized : NormalizedResult
  pub skip_enrich : Bool

-- ErrNotFound, another error, or an ApplyResult; `reason` is empty, "race" or
-- "lifecycle_unmapped", and `none` is the zero item.
pub data ApplyOutcome : Type 0 where
  apply_not_found : ApplyOutcome
  apply_failed : Err → ApplyOutcome
  apply_result :
      (applied duplicate became_terminal : Bool) (reason : Text) (item : Option LookupItem)
      → ApplyOutcome

unfoldable pub find_item : ApplyInput → Db → Option LookupItem
find_item input db =
    if not (input.job_item_id == 0)
    then get_lookup_item input.job_item_id db.lookup_items
    else if not (is_blank input.provider_message_id)
    then get_lookup_item_by_provider_message (codes "smsc") input.provider_message_id
        db.lookup_items
    else none

-- What comes of a patch that does not end the item.
abbrev pub patched :
    LookupWorld → (Err → ApplyOutcome) → Result (LookupItem × Db) → ApplyOutcome × LookupWorld
patched w refused (ok (i, db)) = (apply_result true false false [] (some i), with_db w db)
patched w refused (err e) = (refused e, w)

-- A report on an item that has ended: a completed HLR check may still be enriched.
unfoldable pub update_ended :
    Setup → ℕ → Outside → ApplyInput → LookupItem → LookupWorld → ApplyOutcome × LookupWorld
update_ended setup now out input item w =
    let duplicate = apply_result false true false [] (some item) in
    let enriched = (enrich_hlr setup out item input.normalized).0 in
    if not input.skip_enrich
      && status_eq item.status item_completed
      && is_hlr (some item.check_type)
      && hlr_fields_improved enriched (item_result item)
    then patched w (λ e. duplicate)
        (patch_item now item enriched item_completed (item_completed ∷ []) false w.db)
    else (duplicate, w)

abbrev pub is_race : Err → Bool
is_race no_rows = true
is_race _ = false

unfoldable pub update_pending :
    ℕ → LookupItem → NormalizedResult → LookupWorld → ApplyOutcome × LookupWorld
update_pending now item n w =
    patched w
      (λ e.
        if is_race e
        then apply_result false false false (codes "race") (some item)
        else apply_failed e)
      (patch_item now item n item_pending (item_pending ∷ item_reserved ∷ []) false w.db)

-- GetLookupItem after a race.
abbrev pub fresh_outcome : Option LookupItem → ApplyOutcome
fresh_outcome none = apply_result false false false [] none
fresh_outcome (some fresh) =
    apply_result false (is_terminal_item fresh.status) false [] (some fresh)

unfoldable pub update_terminal :
    Setup
    → ℕ
    → LookupItem
    → NormalizedResult
    → LookupItemStatus
    → LookupWorld
    → ApplyOutcome × LookupWorld
update_terminal setup now item n next w =
    elim (patch_item now item n next open_statuses true w.db) [
      | err e ↦ (
        if is_race e
            then fresh_outcome (get_lookup_item item.id w.db.lookup_items)
            else apply_failed e,
        w,
      )
      | ok (i, db) ↦ (
        apply_result true false true [] (some i),
        on_item_terminal setup now i (lookup_item_settle_action i) (with_db w db),
      )
    ]

-- A report on an open item.
unfoldable pub update_open :
    Setup → ℕ → Outside → ApplyInput → LookupItem → LookupWorld → ApplyOutcome × LookupWorld
update_open setup now out input item w =
    let n = merge_normalized_with_item input.normalized (item_result item) in
    elim (map_lifecycle_to_item_status n.lifecycle_status item.status) [
      | none ↦ (apply_result false false false (codes "lifecycle_unmapped") (some item), w)
      | some next ↦
          if status_eq next item_pending
          then update_pending now item n w
          else update_terminal setup now item
              (if input.skip_enrich then n else (enrich_hlr setup out item n).0) next w
    ]

unfoldable pub update_found :
    Setup → ℕ → Outside → ApplyInput → LookupItem → LookupWorld → ApplyOutcome × LookupWorld
update_found setup now out input item w =
    if not (input.client_id == 0) && not (item.client_id == input.client_id)
    then (apply_not_found, w)
    else if is_terminal_item item.status
    then update_ended setup now out input item w
    else update_open setup now out input item w

unfoldable pub apply_provider_update :
    Setup → ℕ → Outside → ApplyInput → LookupWorld → ApplyOutcome × LookupWorld
apply_provider_update setup now out input w = elim (find_item input w.db) [
  | none ↦ (apply_not_found, w)
  | some item ↦ update_found setup now out input item w
]
