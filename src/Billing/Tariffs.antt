-- ===== src/Billing/Tariffs.antt =====
-- internal/billing/tariffs.go, lookup_billing.go: which tariff a client pays, and what a message or
-- a lookup job is estimated to cost. `now` is time.Now(), instants are numbers.
use sms.Prelude.{ℕ, Bool, false, not, Option, none, some, ltb, if◌then◌else◌}
use sms.Prelude.Int.{ℤ, scale, ltb_ℤ}
use sms.Prelude.Text.{Text, text_eq, trim_space}
use sms.Store.Types.{
  Uuid, BillingProduct, sms_domestic, sms_international, product_hlr, silent_sms, LookupCheckType,
  hlr, ping, TariffPlan, Db,
}
use sms.Store.Errors.{
  Result, ok, ◌>>=◌, ◌>>◌, guard, row_or, tariff_not_configured, invalid_tariff, wallet_not_found,
  insufficient_funds, validation,
}
use sms.Store.Wallets.{get_wallet_by_client_id}
use sms.Store.Tariffs.{product_eq, get_client_tariff}
use sms.Msisdn.{Dest}
use sms.Billing.Money.{must_positive}
use sms.Billing.Pdu.{segment_count}

pub record ResolvedTariff : Type 0 where
  pub plan_id : Uuid
  pub plan_code : Text
  pub product : BillingProduct
  pub sell_price : ℤ
  pub currency : Text
  pub assignment : Uuid

unfoldable pub product_for_dest : Dest → BillingProduct
product_for_dest dest = if dest.international then sms_international else sms_domestic

-- The column's type has these two values.
unfoldable pub product_for_check_type : LookupCheckType → BillingProduct
product_for_check_type hlr = product_hlr
product_for_check_type ping = silent_sms

-- row.EffectiveTo != nil && !row.EffectiveTo.After(now)
abbrev pub has_ended : Option ℕ → ℕ → Bool
has_ended none now = false
has_ended (some to) now = not (ltb now to)

abbrev pub price_of : Option ℤ → ℤ → ℤ
price_of (some price) sell = price
price_of none sell = sell

unfoldable pub resolve_tariff : ℕ → Uuid → BillingProduct → Db → Result ResolvedTariff
resolve_tariff now client product db = do
  row ← row_or tariff_not_configured (get_client_tariff client product db)
  guard row.plan_is_active invalid_tariff
  guard (not (ltb now row.effective_from)) invalid_tariff
  guard (not (has_ended row.effective_to now)) invalid_tariff
  let sell = price_of row.price_override row.plan_sell_price
  must_positive sell
  wallet ← row_or wallet_not_found (get_wallet_by_client_id client db.wallets)
  guard (text_eq (trim_space wallet.currency) (trim_space row.currency)) invalid_tariff
  ok (record {
    plan_id = row.tariff_plan_id;
    plan_code = row.plan_code;
    product = row.product;
    sell_price = sell;
    currency = trim_space row.currency;
    assignment = row.id;
  })

unfoldable pub assert_plan_assignable : TariffPlan → BillingProduct → Result (Unit {0})
assert_plan_assignable plan product = do
  guard (product_eq plan.product product) validation
  guard plan.is_active invalid_tariff

pub record Estimate : Type 0 where
  pub product : BillingProduct
  pub segments : ℕ
  pub unit_sell_price : ℤ
  pub total : ℤ
  pub currency : Text
  pub tariff_plan_id : Uuid
  pub tariff_plan_code : Text

-- The estimate of so many units at a tariff.
unfoldable pub estimate_of : BillingProduct → ℕ → ResolvedTariff → Estimate
estimate_of product units tariff = record {
  product = product;
  segments = units;
  unit_sell_price = tariff.sell_price;
  total = scale tariff.sell_price units;
  currency = tariff.currency;
  tariff_plan_id = tariff.plan_id;
  tariff_plan_code = tariff.plan_code;
}

unfoldable pub estimate : ℕ → Uuid → Dest → Text → Db → Result Estimate
estimate now client dest text db = do
  let product = product_for_dest dest
  tariff ← resolve_tariff now client product db
  ok (estimate_of product (segment_count text) tariff)

unfoldable pub estimate_lookup : ℕ → Uuid → LookupCheckType → ℕ → Db → Result Estimate
estimate_lookup now client check_type unit_count db = do
  guard (not (ltb unit_count 1)) validation
  let product = product_for_check_type check_type
  tariff ← resolve_tariff now client product db
  ok (estimate_of product unit_count tariff)

unfoldable pub assert_lookup_assignment : ℕ → Uuid → LookupCheckType → Db → Result (Unit {0})
assert_lookup_assignment now client check_type db = do
  resolved ← resolve_tariff now client (product_for_check_type check_type) db
  ok tt

unfoldable pub assert_can_afford : Uuid → ℤ → Db → Result (Unit {0})
assert_can_afford client required db = do
  w ← row_or wallet_not_found (get_wallet_by_client_id client db.wallets)
  guard (not (ltb_ℤ w.available_balance required)) insufficient_funds
