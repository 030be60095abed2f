-- ===== src/Lookup/Items.antt =====
-- internal/db/sqlc/lookup.sql.go: the statements on lookup_items that the worker runs. `now` is the
-- database's now().
use sms.Prelude.{
  ℕ, ◌+◌, Bool, false, ◌&&◌, ◌||◌, not, Option, none, some, List, [], ◌∷◌, any, map, take,
  filter_by, find_first, ltb, leb, ◌==◌, if◌then◌else◌,
}
use sms.Prelude.Text.{Text, text_eq}
use sms.Store.Types.{Uuid, LookupItem, LookupItemStatus, item_reserved, item_pending, Extras, Db}
use sms.Store.Errors.{Result, ok, err, no_rows, unique_violation}
use sms.Store.Messages.{coalesce, holds_text}
use sms.Lookup.State.{status_eq}

-- TransitionLookupItemParams; `none` is NULL.
pub record Transition : Type 0 where
  pub to_status : LookupItemStatus
  pub provider_code : Option Text
  pub provider_message_id : Option Text
  pub result_status : Option Text
  pub is_reachable : Option Bool
  pub imsi : Option Text
  pub mcc : Option Text
  pub mnc : Option Text
  pub operator_name : Option Text
  pub country_code : Option Text
  pub ported : Option Bool
  pub roaming : Option Bool
  pub normalized_result : Option Extras
  pub error_code : Option Text
  pub error_message : Option Text
  pub next_poll_at : Option ℕ
  pub poll_attempts : Option ℕ
  pub sent_at : Option ℕ
  pub completed_at : Option ℕ
  pub id : Uuid
  pub from_statuses : List LookupItemStatus

-- The parameters with the other columns NULL.
abbrev pub transition : LookupItemStatus → Uuid → List LookupItemStatus → Transition
transition to id from = record {
  to_status = to;
  provider_code = none;
  provider_message_id = none;
  result_status = none;
  is_reachable = none;
  imsi = none;
  mcc = none;
  mnc = none;
  operator_name = none;
  country_code = none;
  ported = none;
  roaming = none;
  normalized_result = none;
  error_code = none;
  error_message = none;
  next_poll_at = none;
  poll_attempts = none;
  sent_at = none;
  completed_at = none;
  id = id;
  from_statuses = from;
}

-- COALESCE($n, column) of a column that is not null.
abbrev pub or_else {ℓ} : {A : Type ℓ} → Option A → A → A
or_else none a = a
or_else (some b) a = b

abbrev pub changed_item : ℕ → Transition → LookupItem → LookupItem
changed_item now t i = record i {
  status = t.to_status;
  provider_code = or_else t.provider_code i.provider_code;
  provider_message_id = coalesce t.provider_message_id i.provider_message_id;
  result_status = coalesce t.result_status i.result_status;
  is_reachable = coalesce t.is_reachable i.is_reachable;
  imsi = coalesce t.imsi i.imsi;
  mcc = coalesce t.mcc i.mcc;
  mnc = coalesce t.mnc i.mnc;
  operator_name = coalesce t.operator_name i.operator_name;
  country_code = coalesce t.country_code i.country_code;
  ported = coalesce t.ported i.ported;
  roaming = coalesce t.roaming i.roaming;
  extras = or_else t.normalized_result i.extras;
  error_code = coalesce t.error_code i.error_code;
  error_message = coalesce t.error_message i.error_message;
  next_poll_at = coalesce t.next_poll_at i.next_poll_at;
  poll_attempts = or_else t.poll_attempts i.poll_attempts;
  sent_at = coalesce t.sent_at i.sent_at;
  completed_at = coalesce t.completed_at i.completed_at;
  updated_at = now;
}

-- WHERE id = … AND status = ANY(…)
abbrev pub may_change : Transition → LookupItem → Bool
may_change t i = i.id == t.id && any (status_eq i.status) t.from_statuses

-- UPDATE … RETURNING: the new row and the new table; `none` is no row.
unfoldable pub update_lookup_item :
    (LookupItem → Bool)
    → (LookupItem → LookupItem)
    → List LookupItem
    → Option (LookupItem × List LookupItem)
update_lookup_item may set [] = none
update_lookup_item may set (i ∷ is) =
    if may i
    then some (set i, set i ∷ is)
    else elim (update_lookup_item may set is) [ none ↦ none | some (j, js) ↦ some (j, i ∷ js) ]

-- The unique index on (provider_code, provider_message_id): another row has the new pair.
abbrev pub provider_message_taken : LookupItem → List LookupItem → Bool
provider_message_taken i is = elim i.provider_message_id [
  | none ↦ false
  | some pid ↦
      any
        (λ (j : LookupItem).
          not (j.id == i.id)
          && text_eq j.provider_code i.provider_code
          && holds_text j.provider_message_id pid)
        is
]

unfoldable pub transition_lookup_item : ℕ → Transition → Db → Result (LookupItem × Db)
transition_lookup_item now t db =
    elim (update_lookup_item (may_change t) (changed_item now t) db.lookup_items) [
      | none ↦ err no_rows
      | some (i, is) ↦
          if provider_message_taken i db.lookup_items
          then err unique_violation
          else ok (i, record db { lookup_items = is })
    ]

-- BumpLookupItemEnrichAttempt
abbrev pub bumped : ℕ → LookupItem → LookupItem
bumped now i = record i { enrich_attempts = i.enrich_attempts + 1; updated_at = now }

unfoldable pub bump_lookup_item_enrich_attempt : ℕ → Uuid → Db → Db
bump_lookup_item_enrich_attempt now id db = record db {
  lookup_items = map (λ (i : LookupItem). if i.id == id then bumped now i else i) db.lookup_items;
}

unfoldable pub get_lookup_item_by_provider_message :
    Text → Text → List LookupItem → Option LookupItem
get_lookup_item_by_provider_message code pid =
    find_first
      (λ (i : LookupItem). text_eq i.provider_code code && holds_text i.provider_message_id pid)

-- ORDER BY the column, id.
abbrev pub item_before : (LookupItem → ℕ) → LookupItem → LookupItem → Bool
item_before at i j = ltb (at i) (at j) || (at i == at j && leb i.id j.id)

unfoldable pub insert_item : (LookupItem → ℕ) → LookupItem → List LookupItem → List LookupItem
insert_item at i [] = i ∷ []
insert_item at i (j ∷ js) = if item_before at i j then i ∷ j ∷ js else j ∷ insert_item at i js

unfoldable pub sort_items : (LookupItem → ℕ) → List LookupItem → List LookupItem
sort_items at [] = []
sort_items at (i ∷ is) = insert_item at i (sort_items at is)

-- ListStalePendingLookupItems
unfoldable pub list_stale_pending_lookup_items : ℕ → ℕ → Db → List LookupItem
list_stale_pending_lookup_items older_than limit db = take limit (
    sort_items (λ i. i.updated_at)
      (filter_by
        (λ (i : LookupItem). status_eq i.status item_pending && leb i.updated_at older_than)
        db.lookup_items))

-- ListStaleReservedLookupItems
unfoldable pub list_stale_reserved_lookup_items : ℕ → ℕ → Db → List LookupItem
list_stale_reserved_lookup_items older_than limit db = take limit (
    sort_items (λ i. i.created_at)
      (filter_by
        (λ (i : LookupItem). status_eq i.status item_reserved && leb i.created_at older_than)
        db.lookup_items))
