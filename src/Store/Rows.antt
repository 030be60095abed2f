-- ===== src/Store/Rows.antt =====
-- internal/db/sqlc: the statements on clients, messages and lookup items that billing runs.
use sms.Prelude.{
  ℕ, ◌+◌, Bool, true, false, ◌&&◌, ◌||◌, not, Option, none, some, List, [], ◌∷◌, find_first,
  filter_by, ◌==◌, if◌then◌else◌,
}
use sms.Prelude.Int.{ℤ}
use sms.Store.Types.{
  Uuid, Client, SmsMessage, LookupItem, LookupItemStatus, item_completed, item_failed,
  BillingAction,
}
use mathlib.Core.List.{reverse}
use mathlib.Core.Option

unfoldable pub get_client_by_id : Uuid → List Client → Option Client
get_client_by_id client = find_first (λ (c : Client). c.id == client)

unfoldable pub get_sms_message_by_id : Uuid → List SmsMessage → Option SmsMessage
get_sms_message_by_id message = find_first (λ (m : SmsMessage). m.id == message)

-- SetSmsMessageBillingAction; `none` is ErrNoRows.
unfoldable pub set_sms_message_billing_action :
    BillingAction → Uuid → List SmsMessage → Option (List SmsMessage)
set_sms_message_billing_action action message [] = none
set_sms_message_billing_action action message (m ∷ ms) =
    if m.id == message
    then some (record m { billing_action = some action } ∷ ms)
    else Option.map (λ rest. m ∷ rest) (set_sms_message_billing_action action message ms)

unfoldable pub get_lookup_item : Uuid → List LookupItem → Option LookupItem
get_lookup_item item = find_first (λ (i : LookupItem). i.id == item)

-- SetLookupItemBillingAction is `:exec`: it reports no missing row.
unfoldable pub set_lookup_item_billing_action :
    BillingAction → Option ℤ → Uuid → List LookupItem → List LookupItem
set_lookup_item_billing_action action cost item [] = []
set_lookup_item_billing_action action cost item (i ∷ is) =
    if i.id == item
    then record i { billing_action = some action; actual_cost = cost } ∷ is
    else i ∷ set_lookup_item_billing_action action cost item is

abbrev pub is_terminal_status : LookupItemStatus → Bool
is_terminal_status item_completed = true
is_terminal_status item_failed = true
is_terminal_status _ = false

abbrev pub is_null {ℓ} : {A : Type ℓ} → Option A → Bool
is_null none = true
is_null (some a) = false

-- status NOT IN ('completed', 'failed') OR billing_action IS NULL
abbrev pub blocks_remainder : Uuid → LookupItem → Bool
blocks_remainder job i =
    i.job_id == job && (not (is_terminal_status i.status) || is_null i.billing_action)

unfoldable pub count_lookup_items_blocking_remainder : Uuid → List LookupItem → ℕ
count_lookup_items_blocking_remainder job [] = 0
count_lookup_items_blocking_remainder job (i ∷ is) =
    (if blocks_remainder job i then 1 else 0) + count_lookup_items_blocking_remainder job is

-- ORDER BY created_at: the table is newest first, so the order is turned round.
unfoldable pub list_unsettled_terminal_lookup_items : Uuid → List LookupItem → List LookupItem
list_unsettled_terminal_lookup_items job items = reverse (
    filter_by
      (λ (i : LookupItem).
        i.job_id == job && is_terminal_status i.status && is_null i.billing_action)
      items)
