-- ===== src/Lookup/Prepare.antt =====
-- internal/lookup/phone.go: what normalization of a list gives, and what a job may be made of.
use sms.Prelude.{
  ℕ, suc, ◌+◌, ◌≤◌, ◌<◌, ◌≡◌, refl, sym, ◌⊎◌, inl, inr, Bool, true, false, List, [], ◌∷◌, All,
  arith, length, length-append, Bool-cases, if◌then◌else◌,
}
use sms.Msisdn.{digits_only, head_is}
use sms.Prelude.Text.{Text, trim_space}
use sms.Lookup.Phone.{
  is_empty, is_ru_mobile_79, valid_e164, PhoneError, Parsed, phone, refused, e164_of_compact,
  normalize_phone_e164, strip_phone_noise, NormalizeResult, invalid_phone_number, Pass, take_parsed,
  take_inputs, start, normalize_and_deduplicate, prepared, prepare_phones, prepare_normalized,
  national_digits,
}
use sms.Lookup.PhoneLaws.{
  Distinct, PassInv, start-PassInv, reject_token-PassInv, mark_non_79-PassInv, add_phone-PassInv,
}

-- What the parser accepts is a plus sign and 8 to 15 ASCII digits, the first not 0.
normalize_phone_e164-valid :
    (input e164 : Text) → normalize_phone_e164 input ≡ phone e164 → valid_e164 e164 ≡ true
unfolding normalize_phone_e164 e164_of_compact
normalize_phone_e164-valid input e164 = elim (Bool-cases (is_empty (trim_space input))) [
  | inl empty ↦ rw empty (λ e. absurd e)
  | inr given ↦ rw given (compact (strip_phone_noise (trim_space input)))
]
  where
    absurd : {t : Text} {r : PhoneError} → refused r ≡ phone t → valid_e164 t ≡ true
    absurd e = cc

    tested :
        (t : Text)
        → (if valid_e164 t then phone t else refused invalid_phone_number) ≡ phone e164
        → valid_e164 e164 ≡ true
    tested t = elim (Bool-cases (valid_e164 t)) [
      | inl ok ↦ rw ok (λ e. cc)
      | inr bad ↦ rw bad absurd
    ]

    compact : (c : Text) → e164_of_compact c ≡ phone e164 → valid_e164 e164 ≡ true
    compact c = elim (Bool-cases (is_empty (digits_only c))) [
      | inl none_left ↦ rw none_left absurd
      | inr some_left ↦
          rw some_left (tested (b'+' ∷ national_digits (head_is b'+' c) (digits_only c)))
    ]

take_parsed-PassInv :
    (n : ℕ) (input : Text) (r : Parsed) (p : Pass)
    → PassInv n p
    → ((t : Text) → r ≡ phone t → valid_e164 t ≡ true)
    → PassInv (suc n) (take_parsed input r p)
unfolding take_parsed
take_parsed-PassInv n input (refused reason) p v ok =
    reject_token-PassInv (suc n) (trim_space input) _ (record {
      seen = v.seen;
      distinct = v.distinct;
      valid = v.valid;
      mobile = v.mobile;
      counted = omega (arith, v.counted, length-append p.out.invalid ((input, reason) ∷ []));
    })
take_parsed-PassInv n input (phone e164) p v ok =
    let marked = mark_non_79-PassInv n e164 (trim_space input) p v in
    add_phone-PassInv n e164 _ marked.0 (ok e164 refl) marked.1

counting : (m n : ℕ) (p : Pass) → m ≡ n → PassInv m p → PassInv n p
counting m n p e v = rw (sym e) v

take_inputs-PassInv :
    (inputs : List Text) (n : ℕ) (p : Pass)
    → PassInv n p
    → PassInv (n + length inputs) (take_inputs inputs p)
unfolding take_inputs
take_inputs-PassInv [] n p v = counting n (n + 0) p (omega arith) v
take_inputs-PassInv (input ∷ inputs) n p v =
    counting (suc n + length inputs) (n + suc (length inputs)) _ (omega arith) (
      take_inputs-PassInv inputs (suc n) _ (
        take_parsed-PassInv n input (normalize_phone_e164 input) p v
          (normalize_phone_e164-valid input)))

-- The list that normalization gives holds no phone twice and only phones in +E.164; when no input
-- was outside +79 they are all Russian mobiles; and every input is a phone of the list, a
-- duplicate or an invalid input.
pub normalize_and_deduplicate-lem :
    (inputs : List Text)
    → let r = normalize_and_deduplicate inputs in
      Distinct r.phones
      × All (λ t. valid_e164 t ≡ true) r.phones
      × (r.has_non_79 ≡ false → All (λ t. is_ru_mobile_79 t ≡ true) r.phones)
      × (length r.phones + r.deduplicated_count + length r.invalid ≡ length inputs)
unfolding normalize_and_deduplicate
normalize_and_deduplicate-lem inputs =
    let v = take_inputs-PassInv inputs 0 start start-PassInv in
    (v.distinct, v.valid, v.mobile, omega (arith, v.counted))

-- What a job is made of.
pub record IsJobList (inputs : List Text) (is_single : Bool) (cap : ℕ) (phones : List Text)
    (deduped : ℕ) : Type 0 where
  pub nonempty : 0 < length phones
  pub distinct : Distinct phones
  pub valid : All (λ t. valid_e164 t ≡ true) phones
  pub mobile : All (λ t. is_ru_mobile_79 t ≡ true) phones
  pub capped : cap ≡ 0 ⊎ (length phones ≤ cap)
  pub single : is_single ≡ true → length phones ≡ 1
  pub counted : length phones + deduped ≡ length inputs

gate :
    (is_single : Bool) (cap : ℕ) (r : NormalizeResult) (phones : List Text) (deduped : ℕ)
    → prepare_normalized is_single cap r ≡ prepared phones deduped
    → (length r.invalid ≡ 0)
      × (r.has_non_79 ≡ false)
      × (0 < length r.phones)
      × (cap ≡ 0 ⊎ (length r.phones ≤ cap))
      × (is_single ≡ true → length r.phones ≡ 1)
      × ((r.phones ≡ phones) × (r.deduplicated_count ≡ deduped))
unfolding prepare_normalized
gate is_single cap r phones deduped e = ground arith

gates :
    (inputs : List Text) (is_single : Bool) (cap : ℕ) (phones : List Text) (deduped : ℕ)
    → prepare_phones inputs is_single cap ≡ prepared phones deduped
    → prepare_normalized is_single cap (normalize_and_deduplicate inputs) ≡ prepared phones deduped
unfolding prepare_phones
gates [] is_single cap phones deduped e = ground arith
gates (input ∷ inputs) is_single cap phones deduped e = e

-- When the phones of a job are prepared, the list is not empty, has no phone twice, only Russian
-- mobiles in +E.164, no more than a positive cap, exactly one for the source `single`, and every
-- input is a phone of the list or counted as a duplicate.
pub prepare_phones-IsJobList :
    (inputs : List Text) (is_single : Bool) (cap : ℕ) (phones : List Text) (deduped : ℕ)
    → prepare_phones inputs is_single cap ≡ prepared phones deduped
    → IsJobList inputs is_single cap phones deduped
unfolding prepare_phones
prepare_phones-IsJobList inputs is_single cap phones deduped e =
    let (distinct, valid, mobile, counted) = normalize_and_deduplicate-lem inputs in
    let (all_valid, in_79, some_left, below, one, same) =
      gate is_single cap _ phones deduped (gates inputs is_single cap phones deduped e) in
    record {
      nonempty = rw (sym same.0) some_left;
      distinct = rw (sym same.0) distinct;
      valid = rw (sym same.0) valid;
      mobile = rw (sym same.0) (mobile in_79);
      capped = rw (sym same.0) below;
      single = rw (sym same.0) one;
      counted = rw (sym same.0, sym same.1) (omega (arith, counted, all_valid));
    }
