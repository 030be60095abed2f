-- ===== src/Store/Tariffs.antt =====
-- internal/db/sqlc/billing.sql.go: the query on client_tariffs and tariff_plans.
use sms.Prelude.{ℕ, Bool, false, true, ◌&&◌, Option, none, some, find_first, ◌==◌}
use sms.Prelude.Int.{ℤ}
use sms.Prelude.Text.{Text}
use sms.Store.Types.{
  Uuid, BillingProduct, sms_domestic, sms_international, product_hlr, silent_sms, Db,
}

abbrev pub product_eq : BillingProduct → BillingProduct → Bool
product_eq sms_domestic sms_domestic = true
product_eq sms_international sms_international = true
product_eq product_hlr product_hlr = true
product_eq silent_sms silent_sms = true
product_eq _ _ = false

pub record GetClientTariffRow : Type 0 where
  pub id : Uuid
  pub product : BillingProduct
  pub tariff_plan_id : Uuid
  pub price_override : Option ℤ
  pub effective_from : ℕ
  pub effective_to : Option ℕ
  pub plan_code : Text
  pub plan_sell_price : ℤ
  pub currency : Text
  pub plan_is_active : Bool

-- The join; (client_id, product) is unique.
unfoldable pub get_client_tariff : Uuid → BillingProduct → Db → Option GetClientTariffRow
get_client_tariff client product db =
    elim (find_first (λ a. a.client_id == client && product_eq a.product product)
      db.client_tariffs) [
        | none ↦ none
        | some a ↦ elim (find_first (λ p. p.id == a.tariff_plan_id) db.tariff_plans) [
          | none ↦ none
          | some p ↦ some (record {
            id = a.id;
            product = a.product;
            tariff_plan_id = a.tariff_plan_id;
            price_override = a.price_override;
            effective_from = a.effective_from;
            effective_to = a.effective_to;
            plan_code = p.code;
            plan_sell_price = p.sell_price;
            currency = p.currency;
            plan_is_active = p.is_active;
          })
        ]
      ]
