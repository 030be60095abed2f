-- ===== src/Lookup/Merging.antt =====
-- internal/lookup/apply.go: what merging keeps of a report.
use sms.Prelude.{◌≡◌, refl, Bool, true, false, ◌&&◌, ◌||◌, not, Option, none, some, [], arith}
use sms.Prelude.Text.{Text, codes, text_eq, text_eq_refl}
use sms.Lookup.State.{Lifecycle}
use sms.Lookup.Apply.{
  NormalizedResult, ItemResult, is_blank, deref, prefer_string, prefer_bool, is_final_status,
  is_pending_status, prefer_result_status, merge_extras, merge_normalized_with_item,
  hlr_fields_improved, merge_enrich, fills, sets, changes, adds,
}
use sms.Store.Types.{Extras}

unknown_final : is_final_status (codes "unknown") ≡ true
unfolding is_final_status text_eq
unknown_final = refl

-- What the richer report adds to a final status is final or nothing.
prefer_result_status-final :
    (a b : Text)
    → is_final_status b ≡ true
    → (is_final_status a || is_pending_status a || is_blank a) ≡ true
    → is_final_status (prefer_result_status a b) ≡ true
unfolding prefer_result_status
prefer_result_status-final a b h k = ground arith

blank_not_final : is_final_status [] ≡ false
unfolding is_final_status text_eq
blank_not_final = refl

prefer_result_status-given : (a b : Text) → is_blank (prefer_result_status a b) ≡ false
unfolding prefer_result_status
prefer_result_status-given a b = ground (arith, blank_not_final)

-- Enrichment leaves a result status that is not empty; from a final one and a report that is
-- reachable, unreachable, error, unknown, pending or empty it leaves a final one.
pub merge_enrich-result :
    (n rich : NormalizedResult)
    → (is_blank (merge_enrich n rich).result_status ≡ false)
      × (is_final_status n.result_status ≡ true
          → (is_final_status rich.result_status
              || is_pending_status rich.result_status
              || is_blank rich.result_status)
            ≡ true
          → is_final_status (merge_enrich n rich).result_status ≡ true)
unfolding merge_enrich
merge_enrich-result n rich = (
  prefer_result_status-given rich.result_status n.result_status,
  prefer_result_status-final rich.result_status n.result_status,
)

-- A field that is empty in the report takes the item's value, and then fills nothing.
fills_nothing : (o : Option Text) → fills (prefer_string [] (deref o)) o ≡ false
unfolding prefer_string
fills_nothing o = ground arith

bool_same : (b : Bool) → changes (some b) (some b) ≡ false
bool_same b = ground arith

sets_nothing : (o : Option Bool) → sets (prefer_bool none o) o ≡ false
unfolding prefer_bool
sets_nothing o = ground arith

changes_nothing : (o : Option Bool) → changes (prefer_bool none o) o ≡ false
unfolding prefer_bool
changes_nothing none = refl
changes_nothing (some b) = bool_same b

adds_nothing : (e : Extras) (key : Text) → adds (merge_extras (λ k. none) e) e key ≡ false
unfolding merge_extras
adds_nothing e key = ground arith

status_same :
    (o : Option Text)
    → (not (is_blank (prefer_string [] (deref o)))
        && not (is_pending_status (prefer_string [] (deref o)))
        && not (text_eq (prefer_string [] (deref o)) (deref o)))
      ≡ false
unfolding prefer_string
status_same o = ground (arith, text_eq_refl (deref o))

-- smsc.NormalizedResult{}
abbrev pub no_report : NormalizedResult
no_report = record {
  provider_code = [];
  check_type = none;
  provider_message_id = [];
  phone_e164 = [];
  lifecycle_status = Lifecycle.other;
  result_status = [];
  is_reachable = none;
  imsi = [];
  mcc = [];
  mnc = [];
  operator_name = [];
  country_code = [];
  ported = none;
  roaming = none;
  provider_error_code = [];
  provider_error_message = [];
  provider_status_code = [];
  cost = [];
  currency = [];
  extras = λ key. none;
}

-- Without a report there is no improvement: what an item knows, merged into an empty result, is not
-- taken for news about the item.
pub no_report-no_news :
    (item : ItemResult)
    → hlr_fields_improved (merge_normalized_with_item no_report item) item ≡ false
unfolding hlr_fields_improved merge_normalized_with_item
no_report-no_news item =
    rw
      (
        fills_nothing item.imsi,
        fills_nothing item.mcc,
        fills_nothing item.mnc,
        fills_nothing item.operator_name,
        fills_nothing item.country_code,
        sets_nothing item.roaming,
        changes_nothing item.is_reachable,
        status_same item.result_status,
        adds_nothing item.extras (codes "msc"),
        adds_nothing item.extras (codes "region"),
        adds_nothing item.extras (codes "roamingCountry"),
        adds_nothing item.extras (codes "roamingOperator"),
      )
      refl
