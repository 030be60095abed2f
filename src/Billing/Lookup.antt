-- ===== src/Billing/Lookup.antt =====
-- internal/billing/lookup_billing.go, lookup.go: one hold for a lookup job, settled item by item, and
-- the release of what is left when no item can claim any of it.
use sms.Prelude.{ℕ, zero, suc, Bool, true, false, ◌||◌, not, Option, none, some, ltb, if◌then◌else◌}
use sms.Prelude.Int.{ℤ, scale, ltb_ℤ}
use sms.Store.Types.{
  Uuid, Key, hold_lookup_job, debit_lookup_item, release_lookup_item, release_remainder,
  BillingAction, capture, release, WalletTransaction, release_tx, LookupItem, LookupJob, Db,
}
use sms.Store.Errors.{
  Result, ok, err, ◌>>=◌, ◌>>◌, guard, row_or, is_no_rows, price_snapshot_missing, hold_not_found,
  invalid_amount, validation, no_rows,
}
use sms.Store.Wallets.{lock_wallet_by_client_id}
use sms.Store.Ledger.{get_lookup_job_hold, sum_settled_against_hold}
use sms.Store.Rows.{
  get_lookup_item, set_lookup_item_billing_action, count_lookup_items_blocking_remainder,
}
use sms.Billing.Money.{must_positive, remaining_on_hold, hold_is_open, apply_release}
use sms.Billing.Post.{client_deleted, key_used, post_balances, place_hold}
use sms.Billing.Sms.{settle_type, settle_balances, settle_billing_action}

unfoldable pub reserve_for_lookup_job : LookupJob → Db → Result Db
reserve_for_lookup_job job db = if client_deleted job.client_id db then ok db else do
  guard (not (ltb job.item_count 1)) validation
  unit_sell_price ← row_or price_snapshot_missing job.unit_sell_price
  tariff_plan_id ← row_or price_snapshot_missing job.tariff_plan_id
  tariff_plan_code ← row_or price_snapshot_missing job.tariff_plan_code
  let amount = scale unit_sell_price job.item_count
  must_positive amount
  if key_used job.client_id (hold_lookup_job job.id) db
      then ok db
      else place_hold job.client_id (hold_lookup_job job.id) amount job.currency none (some job.id)
          db

abbrev pub item_key : Bool → Uuid → Key
item_key true item = debit_lookup_item item
item_key false item = release_lookup_item item

abbrev pub item_cost : Bool → ℤ → Option ℤ
item_cost true share = some share
item_cost false share = none

unfoldable pub mark_lookup_item_posted : Uuid → Bool → ℤ → Db → Db
mark_lookup_item_posted item is_capture share db = record db {
  lookup_items =
      set_lookup_item_billing_action (settle_billing_action is_capture) (item_cost is_capture share)
        item db.lookup_items;
}

-- The share is taken from the job's hold, if that much of it is left.
unfoldable pub settle_item_share : LookupItem → ℤ → Bool → Db → Result Db
settle_item_share item share is_capture db = do
  h ← row_or hold_not_found (get_lookup_job_hold item.job_id db.wallet_transactions)
  remaining ← remaining_on_hold h.amount (sum_settled_against_hold h.id db.wallet_transactions)
  guard (not (ltb_ℤ remaining share)) invalid_amount
  w ← row_or no_rows (lock_wallet_by_client_id item.client_id db.wallets)
  balances ← settle_balances is_capture w.available_balance w.held_balance share
  posted ←
      post_balances w
        (record {
          id = 0;
          wallet_id = w.id;
          client_id = item.client_id;
          type = settle_type is_capture;
          amount = share;
          currency = h.currency;
          balance_after_available = balances.0;
          balance_after_held = balances.1;
          related_hold_id = some h.id;
          sms_message_id = none;
          lookup_job_id = some item.job_id;
          lookup_item_id = some item.id;
          idempotency_key = item_key is_capture item.id;
          direction = none;
        })
        db
  ok (mark_lookup_item_posted item.id is_capture share posted)

unfoldable pub settle_priced_item : LookupItem → Bool → Db → Result Db
settle_priced_item item is_capture db = do
  share ← row_or price_snapshot_missing item.unit_sell_price
  must_positive share
  if key_used item.client_id (item_key is_capture item.id) db
      then ok (mark_lookup_item_posted item.id is_capture share db)
      else settle_item_share item share is_capture db

-- Settled already: fine if the same way.
abbrev pub same_action : Bool → BillingAction → Bool
same_action true capture = true
same_action false release = true
same_action _ _ = false

unfoldable pub settle_lookup_item_once : Uuid → Bool → Db → Result Db
settle_lookup_item_once id is_capture db = do
  item ← row_or no_rows (get_lookup_item id db.lookup_items)
  if client_deleted item.client_id db then ok db else elim item.billing_action [
    | some action ↦ if same_action is_capture action then ok db else err invalid_amount
    | none ↦ settle_priced_item item is_capture db
  ]

-- `for attempt := 0; attempt < n; attempt++`: ErrNoRows alone is tried again.
unfoldable pub retry : ℕ → (Db → Result Db) → Db → Result Db
retry zero once db = err no_rows
retry (suc n) once db =
    let again = retry n once db in
    elim (once db) [ ok db' ↦ ok db' | err e ↦ if is_no_rows e then again else err e ]

abbrev pub wallet_version_retries : ℕ
wallet_version_retries = 5

unfoldable pub settle_lookup_item : Uuid → Bool → Db → Result Db
settle_lookup_item id is_capture =
    retry wallet_version_retries (settle_lookup_item_once id is_capture)

unfoldable pub capture_for_lookup_item : Uuid → Db → Result Db
capture_for_lookup_item id = settle_lookup_item id true

unfoldable pub release_for_lookup_item : Uuid → Db → Result Db
release_for_lookup_item id = settle_lookup_item id false

abbrev pub lookup_remainder_blocked : ℕ → Bool
lookup_remainder_blocked blocking_items = ltb 0 blocking_items

-- The hold is open by `remaining` and its remainder not released yet.
unfoldable pub release_remaining : WalletTransaction → Uuid → ℤ → Db → Result Db
release_remaining h job remaining db = do
  w ← row_or no_rows (lock_wallet_by_client_id h.client_id db.wallets)
  balances ← apply_release w.available_balance w.held_balance remaining
  post_balances w
      (record {
        id = 0;
        wallet_id = w.id;
        client_id = h.client_id;
        type = release_tx;
        amount = remaining;
        currency = h.currency;
        balance_after_available = balances.0;
        balance_after_held = balances.1;
        related_hold_id = some h.id;
        sms_message_id = none;
        lookup_job_id = some job;
        lookup_item_id = none;
        idempotency_key = release_remainder job;
        direction = none;
      })
      db

unfoldable pub release_hold_remainder : WalletTransaction → Uuid → Db → Result Db
release_hold_remainder h job db = if client_deleted h.client_id db then ok db else do
  remaining ← remaining_on_hold h.amount (sum_settled_against_hold h.id db.wallet_transactions)
  if not (hold_is_open remaining) || key_used h.client_id (release_remainder job) db
      then ok db
      else release_remaining h job remaining db

unfoldable pub release_lookup_job_remainder_once : Uuid → Db → Result Db
release_lookup_job_remainder_once job db =
    if lookup_remainder_blocked (count_lookup_items_blocking_remainder job db.lookup_items)
    then ok db
    else elim (get_lookup_job_hold job db.wallet_transactions) [
      | none ↦ ok db
      | some h ↦ release_hold_remainder h job db
    ]

unfoldable pub release_lookup_job_remainder : Uuid → Db → Result Db
release_lookup_job_remainder job =
    retry wallet_version_retries (release_lookup_job_remainder_once job)
