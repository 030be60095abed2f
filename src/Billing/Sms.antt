-- ===== src/Billing/Sms.antt =====
-- internal/billing/service.go: the hold of a message, its capture and its release, and the reaper
-- that settles the holds which nothing else has settled.
use sms.Prelude.{
  ℕ, suc, Bool, true, false, ◌&&◌, Option, none, some, List, [], ◌∷◌, ltb, if◌then◌else◌,
}
use sms.Prelude.Int.{ℤ, scale}
use sms.Store.Types.{
  Uuid, Key, hold_sms, debit_sms, release_sms, BillingAction, capture, release, SmsStatus,
  sms_failed, SendJobStatus, send_dead, WalletTransaction, WalletTxType, debit, release_tx,
  SmsMessage, Db,
}
use sms.Store.Errors.{
  Result, ok, err, ◌>>=◌, ◌>>◌, row_or, validation, price_snapshot_missing, no_rows,
}
use sms.Store.Wallets.{lock_wallet_by_client_id}
use sms.Store.Ledger.{get_open_hold_for_message}
use sms.Store.Rows.{get_sms_message_by_id, set_sms_message_billing_action}
use sms.Store.Joins.{ListOpenHoldMessagesRow, list_open_hold_messages}
use sms.Billing.Money.{must_positive, apply_release, apply_debit_from_hold}
use sms.Billing.Post.{client_deleted, key_used, post_balances, place_hold}

-- From the price snapshot on.
unfoldable pub reserve_priced : SmsMessage → Uuid → Db → Result Db
reserve_priced msg client db = do
  unit_sell_price ← row_or price_snapshot_missing msg.unit_sell_price
  billed_segments ← row_or price_snapshot_missing msg.billed_segments
  tariff_plan_id ← row_or price_snapshot_missing msg.tariff_plan_id
  tariff_plan_code ← row_or price_snapshot_missing msg.tariff_plan_code
  currency ← row_or price_snapshot_missing msg.currency
  let amount = scale unit_sell_price billed_segments
  must_positive amount
  if key_used client (hold_sms msg.id) db
      then ok db
      else place_hold client (hold_sms msg.id) amount currency (some msg.id) none db

unfoldable pub reserve_for_message : SmsMessage → Db → Result Db
reserve_for_message msg db = do
  client ← row_or validation msg.client_id
  if client_deleted client db then ok db else reserve_priced msg client db

abbrev pub settle_key : Bool → Uuid → Key
settle_key true message = debit_sms message
settle_key false message = release_sms message

abbrev pub settle_billing_action : Bool → BillingAction
settle_billing_action true = capture
settle_billing_action false = release

abbrev pub settle_type : Bool → WalletTxType
settle_type true = debit
settle_type false = release_tx

-- The balances after a capture or a release of an amount that is held.
unfoldable pub settle_balances : Bool → ℤ → ℤ → ℤ → Result (ℤ × ℤ)
settle_balances true avail held amt = apply_debit_from_hold avail held amt
settle_balances false avail held amt = apply_release avail held amt

-- SetSmsMessageBillingAction, with ErrNoRows as an error.
unfoldable pub mark_message : Uuid → Bool → Db → Result Db
mark_message message is_capture db = do
  ms ←
      row_or no_rows
        (set_sms_message_billing_action (settle_billing_action is_capture) message db.sms_messages)
  ok (record db { sms_messages = ms })

-- The open hold is found: post its settlement and mark the message.
unfoldable pub settle_hold : WalletTransaction → Uuid → Uuid → Bool → Db → Result Db
settle_hold h message client is_capture db = do
  w ← row_or no_rows (lock_wallet_by_client_id client db.wallets)
  balances ← settle_balances is_capture w.available_balance w.held_balance h.amount
  posted ←
      post_balances w
        (record {
          id = 0;
          wallet_id = w.id;
          client_id = client;
          type = settle_type is_capture;
          amount = h.amount;
          currency = h.currency;
          balance_after_available = balances.0;
          balance_after_held = balances.1;
          related_hold_id = some h.id;
          sms_message_id = some message;
          lookup_job_id = none;
          lookup_item_id = none;
          idempotency_key = settle_key is_capture message;
          direction = none;
        })
        db
  mark_message message is_capture posted

-- `_, _ = q.SetSmsMessageBillingAction(…)`: an error is ignored.
abbrev pub or_same : Db → Result Db → Db
or_same db (ok db') = db'
or_same db (err e) = db

unfoldable pub settle_client : Uuid → Uuid → Bool → Db → Result Db
settle_client message client is_capture db =
    if key_used client (settle_key is_capture message) db
    then ok (or_same db (mark_message message is_capture db))
    else elim (get_open_hold_for_message message db.wallet_transactions) [
      | none ↦ ok db
      | some h ↦ settle_hold h message client is_capture db
    ]

-- A message with no client or no price has nothing to settle.
unfoldable pub settle_message : SmsMessage → Uuid → Bool → Db → Result Db
settle_message msg message is_capture db = elim msg.client_id [
  | none ↦ ok db
  | some client ↦ elim msg.unit_sell_price [
    | none ↦ ok db
    | some price ↦
        if client_deleted client db then ok db else settle_client message client is_capture db
  ]
]

unfoldable pub settle : Uuid → Bool → Db → Result Db
settle message is_capture db = elim (get_sms_message_by_id message db.sms_messages) [
  | none ↦ ok db
  | some msg ↦ settle_message msg message is_capture db
]

unfoldable pub capture_for_message : Uuid → Db → Result Db
capture_for_message message = settle message true

unfoldable pub release_for_message : Uuid → Db → Result Db
release_for_message message = settle message false

abbrev pub is_dead : Option SendJobStatus → Bool
is_dead (some send_dead) = true
is_dead _ = false

abbrev pub is_failed : SmsStatus → Bool
is_failed sms_failed = true
is_failed _ = false

-- `none` is the empty string: nothing to do yet.
unfoldable pub settle_action : ListOpenHoldMessagesRow → Option BillingAction
settle_action row = elim row.billing_action [
  | some capture ↦ some capture
  | some release ↦ some release
  | none ↦
      if row.accepted
      then some capture
      else if is_failed row.message_status && is_dead row.job_status
      then some release
      else none
]

abbrev pub count_ok : ℕ → Db → Result Db → ℕ × Db
count_ok n db (ok db') = (suc n, db')
count_ok n db (err e) = (n, db)

-- The switch on the action: `n` counts what went well.
unfoldable pub reap_action : Option BillingAction → Uuid → ℕ → Db → ℕ × Db
reap_action (some capture) message n db = count_ok n db (capture_for_message message db)
reap_action (some release) message n db = count_ok n db (release_for_message message db)
reap_action none message n db = (n, db)

unfoldable pub reap_row : ListOpenHoldMessagesRow → ℕ × Db → ℕ × Db
reap_row row (n, db) = reap_action (settle_action row) row.sms_message_id n db

unfoldable pub reap_rows : List ListOpenHoldMessagesRow → ℕ × Db → ℕ × Db
reap_rows [] acc = acc
reap_rows (row ∷ rows) acc = reap_rows rows (reap_row row acc)

-- The rows are read once; a failed settlement is logged and passed over.
unfoldable pub reap_open_holds : ℕ → Db → ℕ × Db
reap_open_holds limit db =
    reap_rows (list_open_hold_messages (if ltb limit 1 then 50 else limit) db) (0, db)
