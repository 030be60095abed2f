-- ===== src/Lookup/Stuck.antt =====
-- The queue of the stored callbacks: what holds it up, and what comes back to it.
use sms.Prelude.{
  ℕ, ◌+◌, ◌≡◌, refl, sym, ◌∙◌, ◌⊎◌, inl, inr, Bool, true, false, ◌&&◌, ◌||◌, not, Option, none,
  some, List, [], ◌∷◌, All, arith, leb, ◌==◌, ==_iff, if◌then◌else◌, Bool-cases,
}
use sms.Prelude.Text.{Text, codes, text_eq}
use sms.Store.Types.{Uuid, LookupItem}
use sms.Lookup.Apply.{is_blank}
use sms.Lookup.Callbacks.{
  ProviderLookupCallback, ProviderLookupRequest, Conclusion, is_recent, concluded, reopened,
  is_reopened, list_unprocessed_provider_lookup_callbacks, mark_provider_lookup_callback_processed,
  reopen_unapplied_lookup_callbacks,
}
use sms.Lookup.World.{LookupWorld, Setup}
use sms.Lookup.Incoming.{
  unpicked, IncomingCallback, callback_not_found_ttl, items_by_id, items_by_phone,
  lookup_callback_items, pick_callback_items, picked_of, unapplied, IncomingResult, apply_incoming,
}
use sms.Lookup.Stored.{
  no_call, incoming_from_stored, should_conclude_callback, should_mark_stored_callback, mark_stored,
  apply_stored_callback, apply_rows, apply_stored_callbacks, of_item, conclusion_of,
  conclude_callback, reopen_callbacks,
}

-- A stored callback for which several items are found, or none while it is younger than an hour.
abbrev pub Waits :
    ℕ → List ProviderLookupRequest → List LookupItem → ProviderLookupCallback → Type 0
Waits now requests is row =
    let found = picked_of now requests (incoming_from_stored row) is in
    (found ≡ unpicked (codes "ambiguous"))
    ⊎ ((found ≡ unpicked (codes "not_found"))
        × (leb (row.created_at + callback_not_found_ttl) now ≡ false))

module _ (setup : Setup) (now : ℕ) (requests : List ProviderLookupRequest) (w : LookupWorld) where
  items_by_id-blank :
      (input : IncomingCallback) (is : List LookupItem)
      → is_blank input.provider_message_id ≡ true
      → items_by_id now requests input is ≡ []
  unfolding items_by_id
  items_by_id-blank input is e = rw e refl

  items_by_phone-blank :
      (input : IncomingCallback) (is : List LookupItem)
      → is_blank input.phone_digits ≡ true
      → items_by_phone now input is ≡ []
  unfolding items_by_phone
  items_by_phone-blank input is e = rw e refl

  -- Without an id and a phone nothing is found.
  picked_of-blank :
      (input : IncomingCallback) (is : List LookupItem)
      → is_blank input.provider_message_id ≡ true
      → is_blank input.phone_digits ≡ true
      → picked_of now requests input is ≡ unpicked (codes "not_found")
  unfolding picked_of lookup_callback_items pick_callback_items
  picked_of-blank input is e f =
      from_none (items_by_id now requests input is) (items_by_phone now input is)
        (items_by_id-blank input is e) (items_by_phone-blank input is f)
    where
      from_none :
          (xs ys : List LookupItem)
          → xs ≡ []
          → ys ≡ []
          → (let r = elim xs as (λ zs. List LookupItem × List LookupItem) [
            | [] ↦ ([], ys)
            | i ∷ more ↦ (i ∷ more, [])
          ] in
              pick_callback_items r.0 r.1 ≡ unpicked (codes "not_found"))
      from_none [] [] p q = refl
      from_none [] (y ∷ ys) p q = cc
      from_none (x ∷ xs) ys p q = cc

  apply_incoming-unpicked :
      (input : IncomingCallback) (reason : Text)
      → picked_of now requests input w.db.lookup_items ≡ unpicked reason
      → apply_incoming setup now no_call requests input w ≡ (unapplied reason none, w)
  unfolding apply_incoming
  apply_incoming-unpicked input reason e =
      elim (Bool-cases (is_blank input.provider_message_id && is_blank input.phone_digits)) [
        | inl blank ↦
            (let (f, g) = both _ _ blank in
              rw (blank, same (sym (picked_of-blank input _ f g) ∙ e)) refl)
        | inr some_key ↦ rw (some_key, e) refl
      ]
    where
      both : (a b : Bool) → (a && b) ≡ true → (a ≡ true) × (b ≡ true)
      both a b x = ground arith

      same : {s t : Text} → unpicked s ≡ unpicked t → s ≡ t
      same x = cc

  apply_stored_callback-Waits :
      (row : ProviderLookupCallback)
      → Waits now requests w.db.lookup_items row
      → apply_stored_callback setup now requests row w ≡ (false, w)
  unfolding apply_stored_callback mark_stored should_mark_stored_callback should_conclude_callback
      text_eq
  apply_stored_callback-Waits row (inl many) = rw (apply_incoming-unpicked _ _ many) refl
  apply_stored_callback-Waits row (inr (nobody, young)) =
      rw (apply_incoming-unpicked _ _ nobody, young) refl

  apply_rows-Waits :
      (rows : List ProviderLookupCallback)
      → All (Waits now requests w.db.lookup_items) rows
      → apply_rows setup now requests rows w ≡ (0, w)
  unfolding apply_rows
  apply_rows-Waits [] waits = refl
  apply_rows-Waits (row ∷ rows) (first, rest) =
      rw (apply_stored_callback-Waits row first, apply_rows-Waits rows rest) refl

  -- Where several items are found for each of the twenty oldest unprocessed callbacks, or none for one
  -- younger than an hour, applying the stored callbacks applies none and changes nothing, whatever other
  -- callbacks are stored.
  pub apply_stored_callbacks-stuck :
      All
        (Waits now requests w.db.lookup_items)
        (list_unprocessed_provider_lookup_callbacks 20 w.callbacks)
      → apply_stored_callbacks setup now requests w ≡ (0, w)
  unfolding apply_stored_callbacks
  apply_stored_callbacks-stuck waits = apply_rows-Waits _ waits

-- The error that marks a callback which was applied.
conclusion_of-done :
    (res : IncomingResult)
    → should_conclude_callback res ≡ true
    → (conclusion_of res).process_error ≡ none
unfolding conclusion_of should_conclude_callback
conclusion_of-done res done = no_error (is_blank res.reason) res.applied res.duplicate res.item done
  where
    of_item-error : (e : Option Text) (o : Option LookupItem) → (of_item e o).process_error ≡ e
    of_item-error e none = refl
    of_item-error e (some i) = elim (Bool-cases (i.id == 0)) [
      | inl zero_item ↦ rw zero_item refl
      | inr real ↦ rw real refl
    ]

    no_error :
        (blank applied duplicate : Bool) (o : Option LookupItem)
        → (applied || duplicate) ≡ true
        → (of_item
            (if not blank && not applied && not duplicate then some res.reason else none)
            o).process_error
          ≡ none
    no_error true a d o e = of_item-error none o
    no_error false true d o e = of_item-error none o
    no_error false false true o e = of_item-error none o
    no_error false false false o e = cc

-- A day.
abbrev a_day : ℕ
a_day = 86_400_000

-- The row that is marked without an error, and then looked at by a reconciliation.
-- Unprocessed, where it is the callback and a day is not over.
abbrev pub IsBack : ℕ → Uuid → ProviderLookupCallback → Type 0
IsBack later id c = c.id ≡ id → is_recent later a_day c.created_at ≡ true → c.processed_at ≡ none

reopened-IsBack :
    (now later : ℕ) (id : Uuid) (c : ProviderLookupCallback)
    → (c.id ≡ id → (c.processed_at ≡ some now) × (c.process_error ≡ none))
    → IsBack later id (if is_reopened later a_day c then reopened c else c)
reopened-IsBack now later id c marked = elim (Bool-cases (is_reopened later a_day c)) [
  | inl back ↦ rw back (λ same recent. refl)
  | inr left ↦ rw left λ same recent.
      let (at, none_such) = marked same in absurd (true_false (rw (at, recent, none_such) at left))
]
  where
    true_false : true ≡ false → ⊥
    true_false x = cc

marked_row :
    (now : ℕ) (id : Uuid) (k : Conclusion) (c : ProviderLookupCallback)
    → k.process_error ≡ none
    → (let d = (if c.id == id then concluded now k c else c) in
        d.id ≡ id → (d.processed_at ≡ some now) × (d.process_error ≡ none))
marked_row now id k c none_such = elim (Bool-cases (c.id == id)) [
  | inl here ↦ rw here (λ same. (refl, none_such))
  | inr other ↦ rw other λ same. absurd (true_false (sym ((==_iff c.id id).1 same) ∙ other))
]
  where
    true_false : true ≡ false → ⊥
    true_false x = cc

-- A callback that has been marked as applied, or as a duplicate, is unprocessed again once a
-- reconciliation has reopened callbacks within 24 hours of its arrival.
pub conclude_callback-reopened :
    (now later : ℕ) (id : Uuid) (res : IncomingResult) (w : LookupWorld)
    → (id == 0) ≡ false
    → should_conclude_callback res ≡ true
    → All (IsBack later id) (reopen_callbacks later (conclude_callback now id res w)).callbacks
unfolding reopen_callbacks conclude_callback reopen_unapplied_lookup_callbacks
    mark_provider_lookup_callback_processed
conclude_callback-reopened now later id res w real done = rw real (rows w.callbacks)
  where
    rows :
        (cs : List ProviderLookupCallback)
        → All (IsBack later id) (
            reopen_unapplied_lookup_callbacks later 86_400_000
              (mark_provider_lookup_callback_processed now id (conclusion_of res) cs))
    rows [] = tt
    rows (c ∷ cs) = (
      reopened-IsBack now later id _ (marked_row now id _ c (conclusion_of-done res done)),
      rows cs,
    )
