-- ===== src/Billing/Ledger/AffordTests.antt =====
-- A text is estimated, and the message that carries the estimate is reserved.
use sms.Prelude.{◌≡◌, refl, true, false, none, some, [], ◌∷◌}
use sms.Prelude.Int.{pos, ◌+ℤ◌, ◌-ℤ◌, scale}
use sms.Prelude.Text.{codes, text_eq, trim_space}
use sms.Store.Types.{SmsMessage, Db, sms_domestic, hold_sms}
use sms.Store.Errors.{ok}
use sms.Store.Wallets.{get_wallet_by_client_id, lock_wallet_by_client_id, update_wallet_balances}
use sms.Store.Ledger.{get_wallet_tx_by_idempotency, insert_wallet_transaction, key_eq}
use sms.Store.Rows.{get_client_by_id}
use sms.Store.Tariffs.{get_client_tariff}
use sms.Msisdn.{Dest}
use sms.Billing.Money.{must_positive, money}
use sms.Billing.Pdu.{segment_count, is_gsm7, gsm7_septets, utf16_units, in_basic, in_escape}
use sms.Billing.Post.{client_deleted, key_used, post_balances}
use sms.Billing.Sms.{or_same}
use sms.Billing.Rounding.{to_numeric}
use sms.Billing.Credit.{credit_available, post_credit, credit_wallet, top_up, TopUpInput}
use sms.Billing.Tariffs.{
  Estimate, estimate, estimate_of, resolve_tariff, product_for_dest, assert_can_afford,
}
use sms.Billing.Ledger.Invariant.{Valid}
use sms.Billing.Ledger.CreditMoves.{top_up-Valid}
use sms.Billing.Ledger.Afford.{Snapshot, Reserved, estimate_reserves}
use sms.Billing.Ledger.Tests.{hundred, hello, opening, opening-Valid}

-- With a tariff of 3.5 a segment.
abbrev priced : Db
priced = record opening {
  client_tariffs =
      record {
        id = 50;
        client_id = 7;
        product = sms_domestic;
        tariff_plan_id = 30;
        price_override = some (pos 3_500_000);
        effective_from = 1;
        effective_to = none;
      }
      ∷ [];
  tariff_plans =
      record {
        id = 30;
        code = codes "base";
        product = sms_domestic;
        sell_price = pos 4_000_000;
        currency = codes "RUB";
        is_active = true;
      }
      ∷ [];
}

priced-Valid : Valid priced
priced-Valid = record {
  keyed = opening-Valid.keyed;
  first = opening-Valid.first;
  ids = opening-Valid.ids;
  proper = opening-Valid.proper;
  linked = opening-Valid.linked;
  balanced = opening-Valid.balanced;
  covered = opening-Valid.covered;
}

abbrev top_up_input : TopUpInput
top_up_input = record { client_id = 7; amount = codes "100"; idempotency_key = codes "k1" }

unfoldable pub funded : Db
unfolding lock_wallet_by_client_id update_wallet_balances get_wallet_tx_by_idempotency
    insert_wallet_transaction key_eq get_wallet_by_client_id get_client_by_id get_client_tariff
    must_positive money client_deleted key_used post_balances credit_available post_credit
    credit_wallet to_numeric top_up ◌+ℤ◌ ◌-ℤ◌ scale text_eq trim_space estimate estimate_of
    resolve_tariff product_for_dest assert_can_afford segment_count is_gsm7 gsm7_septets utf16_units
    in_basic in_escape
funded = or_same priced (top_up hundred top_up_input priced)

pub funded-Valid : Valid funded
unfolding funded
funded-Valid = top_up-Valid hundred top_up_input priced priced-Valid (λ x. refl) refl

abbrev home : Dest
home = record { msisdn = codes "79991112233"; international = false }

abbrev pub offer : Estimate
offer = record {
  product = sms_domestic;
  segments = 1;
  unit_sell_price = pos 3_500_000;
  total = pos 3_500_000;
  currency = codes "RUB";
  tariff_plan_id = 30;
  tariff_plan_code = codes "base";
}

offered : estimate 5 7 home (codes "Hi") funded ≡ ok offer
unfolding funded
offered = refl

affordable : assert_can_afford 7 (pos 3_500_000) funded ≡ ok tt
unfolding funded
affordable = refl

abbrev message : SmsMessage
message = record hello { unit_sell_price = some (pos 3_500_000); billed_segments = some 1 }

message-Snapshot : Snapshot 7 offer message
message-Snapshot = record {
  client_id = refl;
  unit_sell_price = refl;
  billed_segments = refl;
  tariff_plan_id = refl;
  tariff_plan_code = refl;
  currency = refl;
}

there : client_deleted 7 funded ≡ false
unfolding funded
there = refl

free : key_used 7 (hold_sms 20) funded ≡ false
unfolding funded
free = refl

estimate_reserves_example : Reserved 7 (pos 3_500_000) message funded
estimate_reserves_example =
    estimate_reserves 5 7 home (codes "Hi") offer message funded funded-Valid offered affordable
      message-Snapshot there free
