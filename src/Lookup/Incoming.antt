-- ===== src/Lookup/Incoming.antt =====
-- internal/lookup/callback.go: a callback of the provider finds its item and is applied to it
-- (ApplyIncoming).
use sms.Prelude.{
  ℕ, ◌&&◌, ◌||◌, not, Bool, true, false, Option, none, some, List, [], ◌∷◌, length, filter_by, ltb,
  ◌==◌, if◌then◌else◌,
}
use sms.Prelude.Text.{Text, codes, text_eq, ascii_digit}
use sms.Store.Types.{LookupItem}
use sms.Store.Errors.{Err}
use sms.Msisdn.{head_is, tail_of}
use sms.Lookup.Apply.{NormalizedResult, is_blank}
use sms.Lookup.Callbacks.{
  ProviderLookupRequest, right_ten, list_lookup_items_by_provider_message,
  list_open_lookup_items_for_callback_send_id, list_open_lookup_items_for_callback_phone,
  list_open_lookup_items_for_callback_phone_tail,
}
use sms.Lookup.World.{LookupWorld, Outside, Setup, client_is_deleted}
use sms.Lookup.Update.{ApplyInput, ApplyOutcome, apply_result, apply_provider_update, is_race}

-- An hour.
abbrev pub callback_not_found_ttl : ℕ
callback_not_found_ttl = 3_600_000

pub record IncomingCallback : Type 0 where
  pub provider_message_id : Text
  pub phone_digits : Text
  pub normalized : NormalizedResult
  pub skip_enrich : Bool

-- `none` is the zero item; the text of an error is left out.
pub record IncomingResult : Type 0 where
  pub applied : Bool
  pub duplicate : Bool
  pub reason : Text
  pub item : Option LookupItem

-- smsc.CanonicalPhoneDigits. What is left are ASCII digits, so `len` counts runes.
unfoldable pub callback_phone_digits : Text → Text
callback_phone_digits raw =
    let digits = filter_by ascii_digit raw in
    if length digits == 11 && head_is b'8' digits
    then b'7' ∷ tail_of digits
    else if length digits == 10 && head_is b'9' digits
    then b'7' ∷ digits
    else digits

unfoldable pub phone_tail : Text → Text
phone_tail digits = if ltb (length digits) 10 then [] else right_ten digits

unfoldable pub callback_phones_match : Text → Text → Bool
callback_phones_match item_digits callback_digits =
    if is_blank callback_digits
    then true
    else (let a = callback_phone_digits item_digits in
        let b = callback_phone_digits callback_digits in
        if text_eq a b
        then true
        else not (is_blank (phone_tail a)) && text_eq (phone_tail a) (phone_tail b))

-- The item, or the reason why there is none.
pub data Picked : Type 0 where
  picked : LookupItem → Picked
  unpicked : (reason : Text) → Picked

unfoldable pub pick_callback_items : (by_id by_phone : List LookupItem) → Picked
pick_callback_items (i ∷ j ∷ is) by_phone = unpicked (codes "ambiguous")
pick_callback_items (i ∷ []) by_phone = picked i
pick_callback_items [] (i ∷ j ∷ is) = unpicked (codes "ambiguous")
pick_callback_items [] (i ∷ []) = picked i
pick_callback_items [] [] = unpicked (codes "not_found")

abbrev pub or_if_empty : List LookupItem → List LookupItem → List LookupItem
or_if_empty [] is = is
or_if_empty (j ∷ js) is = j ∷ js

unfoldable pub items_by_id :
    ℕ → List ProviderLookupRequest → IncomingCallback → List LookupItem → List LookupItem
items_by_id now requests input is =
    if is_blank input.provider_message_id
    then []
    else or_if_empty
        (list_lookup_items_by_provider_message (codes "smsc") input.provider_message_id is)
        (list_open_lookup_items_for_callback_send_id now callback_not_found_ttl
          input.provider_message_id requests is)

unfoldable pub items_by_phone : ℕ → IncomingCallback → List LookupItem → List LookupItem
items_by_phone now input is =
    if is_blank input.phone_digits
    then []
    else (let canon = callback_phone_digits input.phone_digits in
        let tail = phone_tail canon in
        or_if_empty
          (list_open_lookup_items_for_callback_phone now callback_not_found_ttl canon
            input.provider_message_id is)
          (if is_blank tail
            then []
            else list_open_lookup_items_for_callback_phone_tail now callback_not_found_ttl tail
                input.provider_message_id is))

-- By id and, where that finds none, by phone.
unfoldable pub lookup_callback_items :
    ℕ
    → List ProviderLookupRequest
    → IncomingCallback
    → List LookupItem
    → List LookupItem × List LookupItem
lookup_callback_items now requests input is = elim (items_by_id now requests input is) [
  | [] ↦ ([], items_by_phone now input is)
  | i ∷ more ↦ (i ∷ more, [])
]

abbrev pub unapplied : Text → Option LookupItem → IncomingResult
unapplied reason item = record { applied = false; duplicate = false; reason = reason; item = item }

unfoldable pub incoming_apply_failure : Err → IncomingResult
incoming_apply_failure e =
    unapplied (if is_race e then codes "item_not_found" else codes "apply_error") none

-- What comes of ApplyProviderUpdate.
unfoldable pub incoming_result : ApplyOutcome → IncomingResult
incoming_result ApplyOutcome.apply_not_found = unapplied (codes "item_not_found") none
incoming_result (ApplyOutcome.apply_failed e) = incoming_apply_failure e
incoming_result (apply_result applied duplicate became reason item) =
    if not applied && not duplicate && not became
    then unapplied (if is_blank reason then codes "lifecycle_unmapped" else reason) item
    else record { applied = applied || became; duplicate = duplicate; reason = []; item = item }

abbrev pub update_of : IncomingCallback → LookupItem → ApplyInput
update_of input item = record {
  job_item_id = item.id;
  client_id = item.client_id;
  provider_message_id = input.provider_message_id;
  normalized = input.normalized;
  skip_enrich = input.skip_enrich;
}

-- The item of a callback is updated.
unfoldable pub apply_to_item :
    Setup → ℕ → Outside → IncomingCallback → LookupItem → LookupWorld → IncomingResult × LookupWorld
apply_to_item setup now out input item w =
    if not (callback_phones_match item.phone_digits input.phone_digits)
    then (unapplied (codes "phone_mismatch") (some item), w)
    else if client_is_deleted item.client_id w.db
    then (record { applied = true; duplicate = false; reason = []; item = some item }, w)
    else (let (outcome, after) = apply_provider_update setup now out (update_of input item) w in
        (incoming_result outcome, after))

unfoldable pub picked_of :
    ℕ → List ProviderLookupRequest → IncomingCallback → List LookupItem → Picked
picked_of now requests input is =
    let (by_id, by_phone) = lookup_callback_items now requests input is in
    pick_callback_items by_id by_phone

unfoldable pub apply_incoming :
    Setup
    → ℕ
    → Outside
    → List ProviderLookupRequest
    → IncomingCallback
    → LookupWorld
    → IncomingResult × LookupWorld
apply_incoming setup now out requests input w =
    if is_blank input.provider_message_id && is_blank input.phone_digits
    then (unapplied (codes "not_found") none, w)
    else elim (picked_of now requests input w.db.lookup_items) [
      | unpicked reason ↦ (unapplied reason none, w)
      | picked item ↦ apply_to_item setup now out input item w
    ]
