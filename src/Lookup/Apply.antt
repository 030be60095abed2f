-- ===== src/Lookup/Apply.antt =====
-- internal/lookup/apply.go: what is kept of a provider's report and of what an item knows already.
-- A map is the function from its keys; JSON is read before: `extras` of an item is extrasFromItem.
use sms.Prelude.{
  Bool, true, false, ◌&&◌, ◌||◌, not, Option, none, some, [], ◌∷◌, any, if◌then◌else◌,
}
use sms.Prelude.Text.{Text, codes, text_eq}
use sms.Store.Types.{LookupCheckType, hlr, Value, nil, str, other_value, Extras}
use sms.Lookup.State.{Lifecycle}

pub record NormalizedResult : Type 0 where
  pub provider_code : Text
  pub check_type : Option LookupCheckType
  pub provider_message_id : Text
  pub phone_e164 : Text
  pub lifecycle_status : Lifecycle
  pub result_status : Text
  pub is_reachable : Option Bool
  pub imsi : Text
  pub mcc : Text
  pub mnc : Text
  pub operator_name : Text
  pub country_code : Text
  pub ported : Option Bool
  pub roaming : Option Bool
  pub provider_error_code : Text
  pub provider_error_message : Text
  pub provider_status_code : Text
  pub cost : Text
  pub currency : Text
  pub extras : Extras

-- The columns of a lookup item that hold its result.
pub record ItemResult : Type 0 where
  pub provider_message_id : Option Text
  pub phone_e164 : Text
  pub result_status : Option Text
  pub is_reachable : Option Bool
  pub imsi : Option Text
  pub mcc : Option Text
  pub mnc : Option Text
  pub operator_name : Option Text
  pub country_code : Option Text
  pub ported : Option Bool
  pub roaming : Option Bool
  pub error_code : Option Text
  pub extras : Extras

abbrev pub is_blank : Text → Bool
is_blank [] = true
is_blank (r ∷ s) = false

abbrev pub deref : Option Text → Text
deref none = []
deref (some s) = s

unfoldable pub prefer_string : Text → Text → Text
prefer_string incoming existing = if is_blank incoming then existing else incoming

unfoldable pub prefer_bool : Option Bool → Option Bool → Option Bool
prefer_bool (some b) existing = some b
prefer_bool none existing = existing

unfoldable pub is_final_status : Text → Bool
is_final_status s =
    any (text_eq s) (codes "reachable" ∷ codes "unreachable" ∷ codes "error" ∷ codes "unknown" ∷ [])

unfoldable pub is_pending_status : Text → Bool
is_pending_status s = text_eq s (codes "pending")

unfoldable pub prefer_result_status : Text → Text → Text
prefer_result_status incoming existing =
    if is_final_status existing && (is_blank incoming || is_pending_status incoming)
    then existing
    else if not (is_blank incoming)
    then incoming
    else if not (is_blank existing)
    then existing
    else codes "unknown"

-- v == nil || v == ""
abbrev pub is_blank_value : Value → Bool
is_blank_value nil = true
is_blank_value (str s) = is_blank s
is_blank_value (other_value v) = false

abbrev pub prefer_value : Option Value → Option Value → Option Value
prefer_value none existing = existing
prefer_value (some v) existing = if is_blank_value v then existing else some v

unfoldable pub merge_extras : Extras → Extras → Extras
merge_extras incoming existing = λ key. prefer_value (incoming key) (existing key)

unfoldable pub merge_normalized_with_item : NormalizedResult → ItemResult → NormalizedResult
merge_normalized_with_item n item = record n {
  provider_message_id = prefer_string n.provider_message_id (deref item.provider_message_id);
  phone_e164 = prefer_string n.phone_e164 item.phone_e164;
  imsi = prefer_string n.imsi (deref item.imsi);
  mcc = prefer_string n.mcc (deref item.mcc);
  mnc = prefer_string n.mnc (deref item.mnc);
  operator_name = prefer_string n.operator_name (deref item.operator_name);
  country_code = prefer_string n.country_code (deref item.country_code);
  ported = prefer_bool n.ported item.ported;
  roaming = prefer_bool n.roaming item.roaming;
  is_reachable = prefer_bool n.is_reachable item.is_reachable;
  result_status = prefer_string n.result_status (deref item.result_status);
  extras = merge_extras n.extras item.extras;
}

-- n.Extras[key], nil where there is none.
abbrev pub at_key : Extras → Text → Value
at_key extras key = elim (extras key) [ none ↦ nil | some v ↦ v ]

abbrev pub is_hlr : Option LookupCheckType → Bool
is_hlr (some hlr) = true
is_hlr _ = false

unfoldable pub needs_hlr_enrich : NormalizedResult → LookupCheckType → Bool
needs_hlr_enrich n check_type =
    if not (is_hlr (some check_type)) && not (is_hlr n.check_type)
    then false
    else is_blank n.imsi || is_blank_value (at_key n.extras (codes "msc"))

abbrev pub fills : Text → Option Text → Bool
fills incoming existing = not (is_blank incoming) && is_blank (deref existing)

abbrev pub bool_eq : Bool → Bool → Bool
bool_eq true b = b
bool_eq false b = not b

abbrev pub sets : Option Bool → Option Bool → Bool
sets (some b) none = true
sets _ _ = false

abbrev pub changes : Option Bool → Option Bool → Bool
changes none existing = false
changes (some b) none = true
changes (some b) (some c) = not (bool_eq b c)

abbrev pub adds : Extras → Extras → Text → Bool
adds incoming existing key =
    not (is_blank_value (at_key incoming key)) && is_blank_value (at_key existing key)

unfoldable pub hlr_fields_improved : NormalizedResult → ItemResult → Bool
hlr_fields_improved n item =
    fills n.imsi item.imsi
    || fills n.mcc item.mcc
    || fills n.mnc item.mnc
    || fills n.operator_name item.operator_name
    || fills n.country_code item.country_code
    || sets n.roaming item.roaming
    || changes n.is_reachable item.is_reachable
    || (not (is_blank n.result_status)
        && not (is_pending_status n.result_status)
        && not (text_eq n.result_status (deref item.result_status)))
    || (not (is_blank n.provider_error_code)
        && not (text_eq n.provider_error_code (deref item.error_code)))
    || any (adds n.extras item.extras)
        (codes "msc" ∷ codes "region" ∷ codes "roamingCountry" ∷ codes "roamingOperator" ∷ [])

unfoldable pub merge_enrich : NormalizedResult → NormalizedResult → NormalizedResult
merge_enrich merged rich = record merged {
  imsi = prefer_string rich.imsi merged.imsi;
  mcc = prefer_string rich.mcc merged.mcc;
  mnc = prefer_string rich.mnc merged.mnc;
  operator_name = prefer_string rich.operator_name merged.operator_name;
  country_code = prefer_string rich.country_code merged.country_code;
  roaming = prefer_bool rich.roaming merged.roaming;
  ported = prefer_bool rich.ported merged.ported;
  is_reachable = prefer_bool rich.is_reachable merged.is_reachable;
  result_status = prefer_result_status rich.result_status merged.result_status;
  provider_error_code = prefer_string rich.provider_error_code merged.provider_error_code;
  provider_error_message = prefer_string rich.provider_error_message merged.provider_error_message;
  provider_status_code = prefer_string merged.provider_status_code rich.provider_status_code;
  extras = merge_extras rich.extras merged.extras;
  cost = prefer_string merged.cost rich.cost;
}
