-- ===== src/Billing/Ledger/Tests.antt =====
-- A client with one message and a lookup job of two items: runs of billing on them.
use sms.Prelude.{All, true, ℕ, ◌≡◌, refl, false, Option, none, some, List, [], ◌∷◌, arith, inl, inr}
use sms.Prelude.Int.{pos, ◌≤ℤ◌, ◌+ℤ◌, ◌-ℤ◌, scale}
use sms.Prelude.Text.{Text, codes, text_eq, trim_space}
use sms.Store.Types.{
  Wallet, WalletTransaction, SmsMessage, LookupItem, LookupJob, Db, active, outbound, sms_queued,
  hlr, item_completed, job_processing, hold, hold_lookup_job,
}
use sms.Store.Wallets.{get_wallet_by_client_id, lock_wallet_by_client_id, update_wallet_balances}
use sms.Store.Ledger.{
  get_wallet_tx_by_idempotency, insert_wallet_transaction, key_eq, find_oldest,
  get_open_hold_for_message, get_lookup_job_hold, sum_settled_against_hold,
}
use sms.Store.Rows.{
  get_client_by_id, get_sms_message_by_id, set_sms_message_billing_action, get_lookup_item,
  set_lookup_item_billing_action, count_lookup_items_blocking_remainder,
}
use sms.Billing.Money.{
  must_positive, money, apply_hold, apply_release, apply_debit_from_hold, apply_adjustment,
  remaining_on_hold, hold_is_open,
}
use sms.Billing.Post.{client_deleted, key_used, post_balances, place_hold}
use sms.Billing.Sms.{
  reserve_priced, reserve_for_message, settle_balances, mark_message, settle_hold, settle_client,
  settle_message, settle,
}
use sms.Billing.Rounding.{Decimal, to_numeric}
use sms.Billing.Credit.{credit_available, post_credit, credit_wallet, top_up}
use sms.Billing.Lookup.{
  reserve_for_lookup_job, mark_lookup_item_posted, settle_item_share, settle_priced_item,
  settle_lookup_item_once, retry, settle_lookup_item, release_remaining, release_hold_remainder,
  release_lookup_job_remainder_once, release_lookup_job_remainder,
}
use sms.Billing.Ledger.Sums.{sum_available, sum_held}
use sms.Billing.Ledger.Invariant.{In, Valid}
use sms.Billing.Ledger.Operations.{
  Operation, credit_client, reserve_message, capture_message, release_message, reserve_job,
  capture_item, release_item, release_job_remainder, perform, perform_all, is_exact,
  perform_all-balanced, perform_all-held, perform_all-covered,
}

-- Every amount is read as 100.
abbrev pub hundred : Text → Option Decimal
hundred s = some (record { numerator = pos 100_000_000; finer = 0 })

abbrev pub hello : SmsMessage
hello = record {
  id = 20;
  client_id = some 7;
  direction = outbound;
  from_msisdn = codes "79991110000";
  to_msisdn = codes "79991112233";
  text = codes "Hello";
  provider_sms_id = none;
  provider_status = none;
  pdu_count = none;
  campaign_id = none;
  status = sms_queued;
  idempotency_key = none;
  created_at = 1;
  accepted = false;
  sent = false;
  delivered = false;
  has_failed = false;
  unit_sell_price = some (pos 2_500_000);
  billed_segments = some 2;
  tariff_plan_id = some 30;
  tariff_plan_code = some (codes "base");
  currency = some (codes "RUB");
  billing_action = none;
}

abbrev pub check_job : LookupJob
check_job = record {
  id = 40;
  client_id = 7;
  check_type = hlr;
  status = job_processing;
  item_count = 2;
  success_count = 0;
  failure_count = 0;
  reachable_count = 0;
  unreachable_count = 0;
  unit_sell_price = some (pos 1_000_000);
  tariff_plan_id = some 31;
  tariff_plan_code = some (codes "hlr");
  currency = codes "RUB";
  actual_cost = none;
  started_at = none;
  completed_at = none;
  updated_at = 1;
}

abbrev pub check_item : ℕ → LookupItem
check_item n = record {
  id = n;
  job_id = 40;
  client_id = 7;
  check_type = hlr;
  status = item_completed;
  phone_e164 = codes "+79991112233";
  phone_digits = codes "79991112233";
  provider_code = codes "smsc";
  provider_message_id = none;
  unit_sell_price = some (pos 1_000_000);
  actual_cost = none;
  result_status = none;
  is_reachable = none;
  imsi = none;
  mcc = none;
  mnc = none;
  operator_name = none;
  country_code = none;
  ported = none;
  roaming = none;
  extras = λ key. none;
  error_code = none;
  error_message = none;
  billing_action = none;
  next_poll_at = none;
  poll_attempts = 0;
  sent_at = none;
  completed_at = none;
  created_at = 1;
  updated_at = 1;
  enrich_attempts = 0;
}

abbrev pub opening : Db
opening = record {
  clients = record { id = 7; status = active } ∷ [];
  wallets =
      record {
        id = 1;
        client_id = 7;
        currency = codes "RUB";
        available_balance = pos 0;
        held_balance = pos 0;
        version = 0;
      }
      ∷ [];
  wallet_transactions = [];
  sms_messages = hello ∷ [];
  send_jobs = [];
  send_attempts = [];
  def_numbers = [];
  number_assignments = [];
  lookup_items = check_item 41 ∷ check_item 42 ∷ [];
  lookup_jobs = check_job ∷ [];
  client_tariffs = [];
  tariff_plans = [];
  next_id = 100;
}

pub opening-Valid : Valid opening
unfolding get_wallet_by_client_id sum_available sum_held
opening-Valid = record {
  keyed = (tt, tt);
  first = omega arith;
  ids = tt;
  proper = tt;
  linked = tt;
  balanced = λ client w e. ground arith;
  covered = λ h m is. absurd m;
}

-- A top-up, the hold and the capture of the message, a capture after the capture, the hold of the
-- job, one item captured and one released.
abbrev day : List Operation
day =
    credit_client (record { client_id = 7; amount = codes "100"; idempotency_key = codes "k1" })
    ∷ reserve_message hello
    ∷ capture_message 20
    ∷ release_message 20
    ∷ reserve_job check_job
    ∷ capture_item 41
    ∷ release_item 42
    ∷ release_job_remainder 40
    ∷ []

abbrev wallet_after : Wallet
wallet_after = record {
  id = 1;
  client_id = 7;
  currency = codes "RUB";
  available_balance = pos 94_000_000;
  held_balance = pos 0;
  version = 6;
}

after_day : Db
unfolding perform_all perform get_wallet_by_client_id lock_wallet_by_client_id
    update_wallet_balances get_wallet_tx_by_idempotency insert_wallet_transaction key_eq find_oldest
    get_open_hold_for_message get_lookup_job_hold sum_settled_against_hold get_client_by_id
    get_sms_message_by_id set_sms_message_billing_action get_lookup_item
    set_lookup_item_billing_action count_lookup_items_blocking_remainder must_positive money
    apply_hold apply_release apply_debit_from_hold apply_adjustment remaining_on_hold hold_is_open
    client_deleted key_used post_balances place_hold reserve_priced reserve_for_message
    settle_balances mark_message settle_hold settle_client settle_message settle credit_available
    post_credit credit_wallet to_numeric top_up reserve_for_lookup_job mark_lookup_item_posted
    settle_item_share settle_priced_item settle_lookup_item_once retry settle_lookup_item
    release_remaining release_hold_remainder release_lookup_job_remainder_once
    release_lookup_job_remainder ◌+ℤ◌ ◌-ℤ◌ scale text_eq trim_space
after_day = perform_all hundred day opening

day-wallet : get_wallet_by_client_id 7 (perform_all hundred day opening).wallets ≡ some wallet_after
unfolding after_day
day-wallet = refl

day-exact : All (λ op. is_exact hundred op ≡ true) day
day-exact = (refl, (refl, (refl, (refl, (refl, (refl, (refl, (refl, tt))))))))

perform_all-balanced_example :
    (wallet_after.available_balance
      ≡ sum_available 7 (perform_all hundred day opening).wallet_transactions)
    × (wallet_after.held_balance ≡ sum_held 7 (perform_all hundred day opening).wallet_transactions)
    × (pos 0 ≤ℤ wallet_after.held_balance)
perform_all-balanced_example =
    perform_all-balanced hundred day opening 7 wallet_after opening-Valid day-exact day-wallet

perform_all-held_example :
    (wallet_after.held_balance ≡ sum_held 7 (perform_all hundred day opening).wallet_transactions)
    × (pos 0 ≤ℤ wallet_after.held_balance)
perform_all-held_example =
    perform_all-held hundred day opening 7 wallet_after opening-Valid day-wallet

abbrev job_hold : WalletTransaction
job_hold = record {
  id = 103;
  wallet_id = 1;
  client_id = 7;
  type = hold;
  amount = pos 2_000_000;
  currency = codes "RUB";
  balance_after_available = pos 93_000_000;
  balance_after_held = pos 2_000_000;
  related_hold_id = none;
  sms_message_id = none;
  lookup_job_id = some 40;
  lookup_item_id = none;
  idempotency_key = hold_lookup_job 40;
  direction = none;
}

job_hold-In : In job_hold (perform_all hundred day opening).wallet_transactions
unfolding after_day
job_hold-In = inr (inr (inl refl))

perform_all-covered_example :
    sum_settled_against_hold 103 (perform_all hundred day opening).wallet_transactions
    ≤ℤ pos 2_000_000
perform_all-covered_example =
    perform_all-covered hundred day opening job_hold opening-Valid job_hold-In refl
