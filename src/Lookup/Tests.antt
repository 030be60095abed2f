-- ===== src/Lookup/Tests.antt =====
-- Numbers of the tests beside the code, and instances of the theorems.
use sms.Prelude.{
  ℕ, ◌≡◌, ◌↔◌, refl, Bool, true, false, none, List, [], ◌∷◌, ◌≤◌, ◌<◌, ◌+◌, ◌-◌, All, arith, length,
}
use sms.Prelude.Text.{Text, codes, is_digit}
use sms.Msisdn.{digits_only}
use sms.Lookup.Phone.{
  normalize_and_deduplicate, prepare_phones, prepare_normalized, prepared, take_inputs, take_parsed,
  add_phone, mark_non_79, reject_token, normalize_phone_e164, e164_of_compact, strip_phone_noise,
  national_digits, valid_e164, is_ru_mobile_79, contains, start,
}
use sms.Store.Types.{item_queued, item_reserved}
use sms.Lookup.PhoneLaws.{Distinct}
use sms.Lookup.Prepare.{normalize_and_deduplicate-lem, prepare_phones-IsJobList, IsJobList}
use sms.Lookup.State.{can_transition_item, item_transitions}

abbrev inputs : List Text
inputs = codes "8 (999) 111-22-33" ∷ codes "+79991112244" ∷ codes "9991112233" ∷ []

abbrev phones : List Text
phones = codes "+79991112233" ∷ codes "+79991112244" ∷ []

two_of_three : prepare_phones inputs false 10 ≡ prepared phones 1
unfolding prepare_phones prepare_normalized normalize_and_deduplicate take_inputs take_parsed
    add_phone mark_non_79 reject_token normalize_phone_e164 e164_of_compact strip_phone_noise
    national_digits valid_e164 is_ru_mobile_79 contains start digits_only is_digit
    sms.Prelude.Text.trim_space sms.Msisdn.all_ascii_digits sms.Prelude.Text.text_eq
two_of_three = refl

prepare_phones-IsJobList_example : IsJobList inputs false 10 phones 1
prepare_phones-IsJobList_example = prepare_phones-IsJobList inputs false 10 phones 1 two_of_three

normalize_and_deduplicate-lem_example :
    let r = normalize_and_deduplicate inputs in
    Distinct r.phones
    × All (λ t. valid_e164 t ≡ true) r.phones
    × (r.has_non_79 ≡ false → All (λ t. is_ru_mobile_79 t ≡ true) r.phones)
    × (length r.phones + r.deduplicated_count + length r.invalid ≡ 3)
normalize_and_deduplicate-lem_example = normalize_and_deduplicate-lem inputs

abbrev five : List ℕ
five = 1 ∷ 2 ∷ 3 ∷ 4 ∷ 5 ∷ []

sent : can_transition_item item_queued item_reserved ≡ true
unfolding can_transition_item item_transitions
sent = refl
