-- ===== src/Lookup/Connected.antt =====
-- internal/lookup/callback.go: what connects an item with the callback that finds it.
use sms.Prelude.{
  ℕ, ◌≡◌, refl, ◌⊎◌, inl, inr, Bool, true, false, ◌&&◌, List, [], ◌∷◌, In, at_head, in_tail,
  In-filter_by, filter_by, arith, if◌then◌else◌,
}
use sms.Prelude.Text.{Text, codes, text_eq}
use sms.Store.Types.{LookupItem}
use sms.Store.Messages.{holds_text}
use sms.Lookup.Apply.{is_blank}
use sms.Lookup.Callbacks.{
  ProviderLookupRequest, is_open_status, is_send_of, is_about, join_requests, has_phone,
  has_phone_tail, list_lookup_items_by_provider_message,
  list_open_lookup_items_for_callback_send_id, list_open_lookup_items_for_callback_phone,
  list_open_lookup_items_for_callback_phone_tail,
}
use sms.Lookup.Incoming.{
  IncomingCallback, picked, callback_not_found_ttl, callback_phone_digits, phone_tail,
  pick_callback_items, or_if_empty, items_by_id, items_by_phone, lookup_callback_items, picked_of,
}
use sms.Lookup.Unique.{sort_items-In, append-In}

-- What connects an item with a callback: the provider's id; a recent request for it, while it is open;
-- or its phone or the end of it, while it is open and recent and has no other id.
pub data Connected (now : ℕ) (requests : List ProviderLookupRequest) (input : IncomingCallback)
    (i : LookupItem) : Type 0 where
  by_provider_id :
      text_eq i.provider_code (codes "smsc") ≡ true
      → holds_text i.provider_message_id input.provider_message_id ≡ true
      → Connected now requests input i
  by_request :
      (r : ProviderLookupRequest)
      → In r requests
      → is_send_of now callback_not_found_ttl input.provider_message_id r ≡ true
      → is_about r i ≡ true
      → is_open_status i ≡ true
      → Connected now requests input i
  by_phone :
      has_phone now callback_not_found_ttl
          (callback_phone_digits input.phone_digits)
          input.provider_message_id
          i
        ≡ true
      → Connected now requests input i
  by_phone_tail :
      has_phone_tail now callback_not_found_ttl
          (phone_tail (callback_phone_digits input.phone_digits))
          input.provider_message_id
          i
        ≡ true
      → Connected now requests input i

split : (a b : Bool) → (a && b) ≡ true → (a ≡ true) × (b ≡ true)
split a b e = ground arith

nothing : {i : LookupItem} → In i [] → ⊥
nothing h = elim h [ ]

or_if_empty-In :
    (js is : List LookupItem) {i : LookupItem} → In i (or_if_empty js is) → In i js ⊎ In i is
or_if_empty-In [] is h = inr h
or_if_empty-In (j ∷ js) is h = inl h

if_not-In :
    (b : Bool) (is : List LookupItem) {i : LookupItem} → In i (if b then [] else is) → In i is
if_not-In true is h = absurd (nothing h)
if_not-In false is h = h

join_requests-In :
    (rs : List ProviderLookupRequest) (is : List LookupItem) {i : LookupItem}
    → In i (join_requests rs is)
    → In i is
      × ((r : ProviderLookupRequest) × In r rs × (is_about r i ≡ true) × (is_open_status i ≡ true))
unfolding join_requests
join_requests-In [] is h = absurd (nothing h)
join_requests-In (r ∷ rs) is {i} h =
    elim (append-In (filter_by (λ j. is_about r j && is_open_status j) is) (join_requests rs is)
      h) [
        | inl here ↦
            (let (there, both) = In-filter_by _ is here in
              let (about, opened) = split (is_about r i) (is_open_status i) both in
              (there, (r, at_head, about, opened)))
        | inr later ↦
            (let (there, (q, k, about, opened)) = join_requests-In rs is later in
              (there, (q, in_tail k, about, opened)))
      ]

module _ (now : ℕ) (requests : List ProviderLookupRequest) (input : IncomingCallback)
    (is : List LookupItem) where
  -- An item of the table that is connected with the callback.
  abbrev Found : LookupItem → Type 0
  Found i = In i is × Connected now requests input i

  by_id-Found :
      {i : LookupItem}
      → In i (list_lookup_items_by_provider_message (codes "smsc") input.provider_message_id is)
      → Found i
  unfolding list_lookup_items_by_provider_message
  by_id-Found {i} h =
      let (there, both) = In-filter_by _ is (sort_items-In _ _ h) in
      let (code, pid) = split (text_eq i.provider_code (codes "smsc")) _ both in
      (there, by_provider_id code pid)

  by_send-Found :
      {i : LookupItem}
      → In i (
          list_open_lookup_items_for_callback_send_id now callback_not_found_ttl
            input.provider_message_id requests is)
      → Found i
  unfolding list_open_lookup_items_for_callback_send_id
  by_send-Found h =
      let (there, (r, k, about, opened)) = join_requests-In _ is (sort_items-In _ _ h) in
      let (kept, sent) = In-filter_by _ requests k in (there, by_request r kept sent about opened)

  items_by_id-Found : {i : LookupItem} → In i (items_by_id now requests input is) → Found i
  unfolding items_by_id
  items_by_id-Found h =
      elim (or_if_empty-In _ _ (if_not-In (is_blank input.provider_message_id) _ h)) [
        | inl own ↦ by_id-Found own
        | inr sent ↦ by_send-Found sent
      ]

  phone-Found :
      (digits : Text) {i : LookupItem}
      → digits ≡ callback_phone_digits input.phone_digits
      → In i (
          list_open_lookup_items_for_callback_phone now callback_not_found_ttl digits
            input.provider_message_id is)
      → Found i
  unfolding list_open_lookup_items_for_callback_phone
  phone-Found digits e h =
      let (there, fits) = In-filter_by _ is (sort_items-In _ _ h) in
      (there, by_phone (rw e at fits))

  tail-Found :
      (tail : Text) {i : LookupItem}
      → tail ≡ phone_tail (callback_phone_digits input.phone_digits)
      → In i (
          list_open_lookup_items_for_callback_phone_tail now callback_not_found_ttl tail
            input.provider_message_id is)
      → Found i
  unfolding list_open_lookup_items_for_callback_phone_tail
  tail-Found tail e h =
      let (there, fits) = In-filter_by _ is (sort_items-In _ _ h) in
      (there, by_phone_tail (rw e at fits))

  items_by_phone-Found : {i : LookupItem} → In i (items_by_phone now input is) → Found i
  unfolding items_by_phone
  items_by_phone-Found h =
      let canon = callback_phone_digits input.phone_digits in
      elim (or_if_empty-In _ _ (if_not-In (is_blank input.phone_digits) _ h)) [
        | inl whole ↦ phone-Found canon refl whole
        | inr rest ↦
            tail-Found (phone_tail canon) refl (if_not-In (is_blank (phone_tail canon)) _ rest)
      ]

  -- A pick is the only one.
  pick-only :
      (xs ys : List LookupItem) {i : LookupItem}
      → pick_callback_items xs ys ≡ picked i
      → (xs ≡ i ∷ []) ⊎ ((xs ≡ []) × (ys ≡ i ∷ []))
  unfolding pick_callback_items
  pick-only [] [] e = cc
  pick-only [] (y ∷ []) e = inr (refl, cc)
  pick-only [] (y ∷ z ∷ ys) e = cc
  pick-only (x ∷ []) ys e = inl cc
  pick-only (x ∷ y ∷ xs) ys e = cc

  -- What is picked is connected with the callback, and it is all that was found by id, or, where there
  -- is nothing by id, by phone.
  pub picked_of-Found :
      (i : LookupItem)
      → picked_of now requests input is ≡ picked i
      → Found i
        × ((items_by_id now requests input is ≡ i ∷ [])
            ⊎ ((items_by_id now requests input is ≡ []) × (items_by_phone now input is ≡ i ∷ [])))
  unfolding picked_of lookup_callback_items
  picked_of-Found i e = go (items_by_id now requests input is) refl e
    where
      go :
          (xs : List LookupItem)
          → items_by_id now requests input is ≡ xs
          → (let r = elim xs as (λ ys. List LookupItem × List LookupItem) [
            | [] ↦ ([], items_by_phone now input is)
            | x ∷ more ↦ (x ∷ more, [])
          ] in
              pick_callback_items r.0 r.1 ≡ picked i)
          → Found i × ((xs ≡ i ∷ []) ⊎ ((xs ≡ []) × (items_by_phone now input is ≡ i ∷ [])))
      go [] f p = elim (pick-only [] (items_by_phone now input is) p) [
        | inl none_such ↦ absurd (no_cons none_such)
        | inr (e', only) ↦ (items_by_phone-Found (rw only at_head), inr (refl, only))
      ]
        where
          no_cons : {i : LookupItem} → ◌≡◌ {A = List LookupItem} [] (i ∷ []) → ⊥
          no_cons x = cc
      go (x ∷ more) f p = elim (pick-only (x ∷ more) [] p) [
        | inl only ↦ (items_by_id-Found (rw (f, only) at_head), inl only)
        | inr (e', only) ↦ absurd (no_cons only)
      ]
        where
          no_cons : {i : LookupItem} → ◌≡◌ {A = List LookupItem} [] (i ∷ []) → ⊥
          no_cons x = cc
