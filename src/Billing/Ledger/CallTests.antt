-- ===== src/Billing/Ledger/CallTests.antt =====
-- Instances of the theorems on single calls of billing.
use sms.Prelude.{◌≡◌, refl, false, none, some, [], ◌∷◌, map, Option, true}
use sms.Prelude.Int.{◌+ℤ◌, ◌-ℤ◌, scale, pos}
use sms.Prelude.Text.{Text, codes, text_eq, trim_space}
use sms.Store.Types.{Db, Wallet, WalletTransaction, hold, hold_lookup_job}
use sms.Store.Errors.{ok}
use sms.Store.Wallets.{lock_wallet_by_client_id, update_wallet_balances}
use sms.Store.Ledger.{
  get_wallet_tx_by_idempotency, insert_wallet_transaction, key_eq, get_lookup_job_hold, find_oldest,
  sum_settled_against_hold, get_open_hold_for_message,
}
use sms.Store.Rows.{
  get_client_by_id, count_lookup_items_blocking_remainder, get_sms_message_by_id,
  set_sms_message_billing_action,
}
use sms.Billing.Money.{
  must_positive, money, apply_hold, apply_adjustment, remaining_on_hold, hold_is_open,
  apply_release, apply_debit_from_hold,
}
use sms.Billing.Post.{client_deleted, key_used, post_balances, place_hold}
use sms.Billing.Sms.{
  reserve_priced, reserve_for_message, or_same, settle, settle_message, settle_client, settle_hold,
  settle_balances, mark_message,
}
use sms.Billing.Rounding.{to_numeric, Decimal}
use sms.Billing.Credit.{
  TopUpInput, AdjustInput, credit_available, post_credit, credit_wallet, top_up, adjust,
  parse_direction,
}
use sms.Billing.Lookup.{
  reserve_for_lookup_job, release_remaining, release_hold_remainder,
  release_lookup_job_remainder_once, retry, release_lookup_job_remainder,
}
use sms.Billing.Ledger.Sums.{sum_available}
use sms.Billing.Ledger.LookupMoves.{reserve_for_lookup_job-Moves}
use sms.Billing.Ledger.SmsMoves.{reserve_for_message-Moves}
use sms.Billing.Ledger.SettleOnce.{settle_twice}
use sms.Billing.Ledger.Closing.{release_lookup_job_remainder-closes}
use sms.Billing.Ledger.Invariant.{Valid}
use sms.Billing.Ledger.Moves.{Moves-Valid}
use sms.Billing.Ledger.CreditMoves.{top_up-Valid}
use sms.Billing.Ledger.Once.{top_up_twice, adjust_twice}
use sms.Billing.Ledger.ReserveOnce.{reserve_for_message_twice, reserve_for_lookup_job_twice}
use sms.Billing.Ledger.Tests.{hundred, hello, check_job, opening, opening-Valid}

abbrev first_top_up : TopUpInput
first_top_up = record { client_id = 7; amount = codes "100"; idempotency_key = codes "k1" }

abbrev refund : AdjustInput
refund = record {
  client_id = 7;
  amount = codes "100";
  direction = codes "credit";
  comment = codes "refund";
  idempotency_key = codes "r1";
  allow_negative = false;
}

-- The opening database after the top-up, then also after each other call.
funded : Db
unfolding lock_wallet_by_client_id update_wallet_balances get_wallet_tx_by_idempotency
    insert_wallet_transaction key_eq get_client_by_id must_positive money apply_hold
    apply_adjustment client_deleted key_used post_balances place_hold reserve_priced
    reserve_for_message credit_available post_credit credit_wallet to_numeric top_up adjust
    parse_direction reserve_for_lookup_job ◌+ℤ◌ ◌-ℤ◌ scale text_eq trim_space
funded = or_same opening (top_up hundred first_top_up opening)

top_up_ok : top_up hundred first_top_up opening ≡ ok funded
unfolding funded
top_up_ok = refl

funded-Valid : Valid funded
funded-Valid = top_up-Valid hundred first_top_up opening opening-Valid (λ x. refl) top_up_ok

refunded : Db
unfolding lock_wallet_by_client_id update_wallet_balances get_wallet_tx_by_idempotency
    insert_wallet_transaction key_eq get_client_by_id must_positive money apply_hold
    apply_adjustment client_deleted key_used post_balances place_hold reserve_priced
    reserve_for_message credit_available post_credit credit_wallet to_numeric top_up adjust
    parse_direction reserve_for_lookup_job ◌+ℤ◌ ◌-ℤ◌ scale text_eq trim_space
refunded = or_same funded (adjust hundred refund funded)

adjust_ok : adjust hundred refund funded ≡ ok refunded
unfolding refunded funded
adjust_ok = refl

-- 0.0000005, half a millionth.
abbrev half_millionth : Text → Option Decimal
half_millionth s = some (record { numerator = pos 5; finer = 1 })

abbrev tiny_debit : AdjustInput
tiny_debit = record {
  client_id = 7;
  amount = codes "0.0000005";
  direction = codes "debit";
  comment = codes "fee";
  idempotency_key = codes "f1";
  allow_negative = false;
}

-- The balance stays at 100, and the ledger says that a millionth was taken.
rounded_apart : Db
unfolding lock_wallet_by_client_id update_wallet_balances get_wallet_tx_by_idempotency
    insert_wallet_transaction key_eq must_positive money apply_adjustment key_used post_balances
    credit_available post_credit credit_wallet to_numeric adjust parse_direction ◌+ℤ◌ ◌-ℤ◌ scale
    text_eq trim_space
rounded_apart = or_same funded (adjust half_millionth tiny_debit funded)

tiny_debit_rounds_apart :
    (map (λ (w : Wallet). w.available_balance) rounded_apart.wallets ≡ pos 100_000_000 ∷ [])
    × (sum_available 7 rounded_apart.wallet_transactions ≡ pos 99_999_999)
unfolding rounded_apart funded sum_available
tiny_debit_rounds_apart = (refl, refl)

message_reserved : Db
unfolding lock_wallet_by_client_id update_wallet_balances get_wallet_tx_by_idempotency
    insert_wallet_transaction key_eq get_client_by_id must_positive money apply_hold
    apply_adjustment client_deleted key_used post_balances place_hold reserve_priced
    reserve_for_message credit_available post_credit credit_wallet to_numeric top_up adjust
    parse_direction reserve_for_lookup_job ◌+ℤ◌ ◌-ℤ◌ scale text_eq trim_space
message_reserved = or_same funded (reserve_for_message hello funded)

message_ok : reserve_for_message hello funded ≡ ok message_reserved
unfolding message_reserved funded
message_ok = refl

job_reserved : Db
unfolding lock_wallet_by_client_id update_wallet_balances get_wallet_tx_by_idempotency
    insert_wallet_transaction key_eq get_client_by_id must_positive money apply_hold
    apply_adjustment client_deleted key_used post_balances place_hold reserve_priced
    reserve_for_message credit_available post_credit credit_wallet to_numeric top_up adjust
    parse_direction reserve_for_lookup_job ◌+ℤ◌ ◌-ℤ◌ scale text_eq trim_space
job_reserved = or_same funded (reserve_for_lookup_job check_job funded)

job_ok : reserve_for_lookup_job check_job funded ≡ ok job_reserved
unfolding job_reserved funded
job_ok = refl

top_up_twice_example : top_up hundred first_top_up funded ≡ ok funded
top_up_twice_example = top_up_twice hundred first_top_up opening funded opening-Valid top_up_ok

adjust_twice_example : adjust hundred refund refunded ≡ ok refunded
adjust_twice_example = adjust_twice hundred refund funded refunded funded-Valid adjust_ok

reserve_for_message_twice_example : reserve_for_message hello message_reserved ≡ ok message_reserved
reserve_for_message_twice_example =
    reserve_for_message_twice hello funded message_reserved funded-Valid message_ok

reserve_for_lookup_job_twice_example :
    reserve_for_lookup_job check_job job_reserved ≡ ok job_reserved
reserve_for_lookup_job_twice_example =
    reserve_for_lookup_job_twice check_job funded job_reserved funded-Valid job_ok

-- The job after its items are gone: nothing can claim its hold.
abbrev emptied : Db
emptied = record job_reserved { lookup_items = [] }

job_reserved-Valid : Valid job_reserved
job_reserved-Valid =
    Moves-Valid funded-Valid (reserve_for_lookup_job-Moves check_job funded funded-Valid job_ok)

emptied-Valid : Valid emptied
emptied-Valid = record {
  keyed = job_reserved-Valid.keyed;
  first = job_reserved-Valid.first;
  ids = job_reserved-Valid.ids;
  proper = job_reserved-Valid.proper;
  linked = job_reserved-Valid.linked;
  balanced = job_reserved-Valid.balanced;
  covered = job_reserved-Valid.covered;
}

abbrev open_hold : WalletTransaction
open_hold = record {
  id = 101;
  wallet_id = 1;
  client_id = 7;
  type = hold;
  amount = pos 2_000_000;
  currency = codes "RUB";
  balance_after_available = pos 98_000_000;
  balance_after_held = pos 2_000_000;
  related_hold_id = none;
  sms_message_id = none;
  lookup_job_id = some 40;
  lookup_item_id = none;
  idempotency_key = hold_lookup_job 40;
  direction = none;
}

released : Db
unfolding job_reserved funded get_lookup_job_hold find_oldest sum_settled_against_hold
    count_lookup_items_blocking_remainder remaining_on_hold hold_is_open apply_release
    release_remaining release_hold_remainder release_lookup_job_remainder_once retry
    release_lookup_job_remainder
released = or_same emptied (release_lookup_job_remainder 40 emptied)

release_lookup_job_remainder-closes_example :
    sum_settled_against_hold 101 released.wallet_transactions ≡ pos 2_000_000
unfolding released
release_lookup_job_remainder-closes_example =
    release_lookup_job_remainder-closes 40 open_hold emptied released emptied-Valid refl refl refl
      refl refl

message_reserved-Valid : Valid message_reserved
message_reserved-Valid =
    Moves-Valid funded-Valid (reserve_for_message-Moves hello funded funded-Valid message_ok)

captured : Db
unfolding message_reserved funded settle settle_message settle_client settle_hold settle_balances
    mark_message get_open_hold_for_message get_sms_message_by_id set_sms_message_billing_action
    find_oldest apply_debit_from_hold
captured = or_same message_reserved (settle 20 true message_reserved)

settle_twice_example : settle 20 true captured ≡ ok captured
unfolding captured
settle_twice_example = settle_twice 20 true message_reserved captured message_reserved-Valid refl
