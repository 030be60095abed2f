-- ===== src/Lookup/Targets.antt =====
-- Which item a callback can change.
use sms.Prelude.{
  ℕ, ◌≡◌, refl, ◌⊎◌, inl, inr, true, false, List, [], ◌∷◌, In, All, at_head, in_tail, ◌==◌,
}
use sms.Store.Types.{LookupItem}
use sms.Lookup.Callbacks.{ProviderLookupRequest}
use sms.Lookup.World.{LookupWorld, Outside, Setup, client_is_deleted}
use sms.Lookup.Update.{apply_provider_update}
use sms.Lookup.Incoming.{
  IncomingCallback, callback_phones_match, items_by_id, items_by_phone, update_of, apply_incoming,
}
use sms.Lookup.ClosedCallbacks.{apply_incoming-leaves}
use sms.Lookup.Steps.{Rows, Rows-refl}
use sms.Lookup.Alone.{Kept, Kept-refl}
use sms.Lookup.AloneReports.{apply_provider_update-Others}
use sms.Lookup.Connected.{Connected, picked_of-Found}

-- The item of the table that a callback may change: it is connected with the callback, has its phone
-- where it names one, belongs to a client that is not deleted, and is the only item found by the
-- callback's id or, where there is none, the only one by phone.
pub record Target (now : ℕ) (requests : List ProviderLookupRequest) (input : IncomingCallback)
    (w : LookupWorld) (i : LookupItem) : Type 0 where
  pub there : In i w.db.lookup_items
  pub tied : Connected now requests input i
  pub same_phone : callback_phones_match i.phone_digits input.phone_digits ≡ true
  pub client_stays : client_is_deleted i.client_id w.db ≡ false
  pub only :
      (items_by_id now requests input w.db.lookup_items ≡ i ∷ [])
      ⊎ ((items_by_id now requests input w.db.lookup_items ≡ [])
          × (items_by_phone now input w.db.lookup_items ≡ i ∷ []))

All-In :
    (P : LookupItem → Type 0) {i : LookupItem} {is : List LookupItem} → In i is → All P is → P i
All-In P at_head a = a.0
All-In P (in_tail h) a = All-In P h a.1

-- Where no item has the zero id, a callback leaves the state as it is, or as a report on one item of the
-- table leaves it, and then all rows with another id are as they were. That item is connected with the
-- callback, has its phone where it names one, belongs to a client that is not deleted, and is the only
-- one found by the callback's id or, where there is none, by its phone.
pub apply_incoming-Targets :
    (setup : Setup) (now : ℕ) (out : Outside) (requests : List ProviderLookupRequest)
    (input : IncomingCallback) (w : LookupWorld)
    → All (λ (i : LookupItem). (i.id == 0) ≡ false) w.db.lookup_items
    → ((apply_incoming setup now out requests input w).1 ≡ w)
      ⊎ ((i : LookupItem) × Target now requests input w i
          × Rows
              (Kept i.id)
              w.db.lookup_items
              (apply_incoming setup now out requests input w).1.db.lookup_items
          × ((apply_incoming setup now out requests input w).1
              ≡ (apply_provider_update setup now out (update_of input i) w).1))
apply_incoming-Targets setup now out requests input w real =
    apply_incoming-leaves
      (λ after.
        (after ≡ w)
        ⊎ ((i : LookupItem) × Target now requests input w i
            × Rows (Kept i.id) w.db.lookup_items after.db.lookup_items
            × (after ≡ (apply_provider_update setup now out (update_of input i) w).1)))
      setup now out requests input w (inl refl)
      λ item e f g.
        let ((there, tied), only) = picked_of-Found now requests input w.db.lookup_items item e in
        let target : Target now requests input w item = record {
          there = there;
          tied = tied;
          same_phone = f;
          client_stays = g;
          only = only;
        } in
        inr (
          item,
          target,
          apply_provider_update-Others setup now out (update_of input item) w
              (All-In (λ i. (i.id == 0) ≡ false) there real)
              (Rows-refl (Kept item.id) (Kept-refl item.id) w.db.lookup_items),
          refl,
        )
