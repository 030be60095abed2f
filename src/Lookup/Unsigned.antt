-- ===== src/Lookup/Unsigned.antt =====
-- What a callback without a result can do: its report does not say what became of the check.
use sms.Prelude.{ℕ, ◌≡◌, ◌≢◌, refl, ap, true, false, ◌&&◌, not, Option, none, some, List, ◌==◌}
use sms.Store.Types.{LookupItem}
use sms.Lookup.State.{Lifecycle, is_terminal_item, map_lifecycle_to_item_status}
use sms.Lookup.Apply.{merge_normalized_with_item}
use sms.Lookup.Callbacks.{ProviderLookupCallback, ProviderLookupRequest}
use sms.Lookup.World.{LookupWorld, Outside, Setup}
use sms.Lookup.Update.{
  ApplyInput, ApplyOutcome, update_ended, update_open, update_found, find_item,
  apply_provider_update,
}
use sms.Lookup.Incoming.{IncomingCallback, update_of, apply_incoming}
use sms.Lookup.Stored.{no_call, incoming_from_stored, apply_stored_callback}
use sms.Lookup.ClosedCallbacks.{if_leaves, apply_incoming-leaves, apply_stored_callback-leaves}
use sms.Lookup.Receiving.{
  CallbackRequest, Signature, valid, is_valid, callback_row, receive_callback,
}

module _ (setup : Setup) (now : ℕ) (out : Outside) where
  -- A report on the item that it names.
  update_leaves :
      (P : LookupWorld → Type 0) (input : ApplyInput) (w : LookupWorld)
      → P w
      → ((item : LookupItem) → P (update_ended setup now out input item w).1)
      → ((item : LookupItem) → P (update_open setup now out input item w).1)
      → P (apply_provider_update setup now out input w).1
  unfolding apply_provider_update update_found
  update_leaves P input w p q r = found (find_item input w.db)
    where
      found :
          (o : Option LookupItem)
          → P
              (elim o as (λ x. ApplyOutcome × LookupWorld) [
                | none ↦ (ApplyOutcome.apply_not_found, w)
                | some item ↦ update_found setup now out input item w
              ]).1
      found none = p
      found (some item) =
          if_leaves P (not (input.client_id == 0) && not (item.client_id == input.client_id)) _ _
            (λ e. p) λ e. if_leaves P (is_terminal_item item.status) _ _ (λ f. q item) λ f. r item

  update_open-none :
      (input : ApplyInput) (item : LookupItem) (w : LookupWorld)
      → input.normalized.lifecycle_status ≡ Lifecycle.other
      → (update_open setup now out input item w).1 ≡ w
  unfolding update_open merge_normalized_with_item map_lifecycle_to_item_status
  update_open-none input item w e = rw e refl

  update_ended-none :
      (input : ApplyInput) (item : LookupItem) (w : LookupWorld)
      → input.skip_enrich ≡ true
      → (update_ended setup now out input item w).1 ≡ w
  unfolding update_ended
  update_ended-none input item w e = rw e refl

  apply_provider_update-none :
      (input : ApplyInput) (w : LookupWorld)
      → input.skip_enrich ≡ true
      → input.normalized.lifecycle_status ≡ Lifecycle.other
      → (apply_provider_update setup now out input w).1 ≡ w
  apply_provider_update-none input w s e =
      update_leaves (λ v. v ≡ w) input w refl (λ item. update_ended-none input item w s)
        λ item. update_open-none input item w e

  apply_incoming-none :
      (requests : List ProviderLookupRequest) (input : IncomingCallback) (w : LookupWorld)
      → input.skip_enrich ≡ true
      → input.normalized.lifecycle_status ≡ Lifecycle.other
      → (apply_incoming setup now out requests input w).1 ≡ w
  apply_incoming-none requests input w s e =
      apply_incoming-leaves (λ v. v ≡ w) setup now out requests input w refl
        λ item f g h. apply_provider_update-none (update_of input item) w s e

-- The same tables, those of the callbacks apart.
abbrev pub Untouched : LookupWorld → LookupWorld → Type 0
Untouched w v = (v.db ≡ w.db) × (v.hooks ≡ w.hooks)

apply_stored_callback-none :
    (setup : Setup) (now : ℕ) (requests : List ProviderLookupRequest) (row : ProviderLookupCallback)
    (w : LookupWorld)
    → row.normalized_result.lifecycle_status ≡ Lifecycle.other
    → Untouched w (apply_stored_callback setup now requests row w).1
unfolding incoming_from_stored
apply_stored_callback-none setup now requests row w e =
    let same = apply_incoming-none setup now no_call requests (incoming_from_stored row) w refl e in
    apply_stored_callback-leaves (Untouched w) setup now requests row w
      (ap (λ v. v.db) same, ap (λ v. v.hooks) same)
      λ cs. (ap (λ v. v.db) same, ap (λ v. v.hooks) same)

-- A callback whose signature is not valid changes no table but that of the callbacks when it comes,
-- and so does the row that is stored of it whenever it is applied.
pub receive_callback-unsigned :
    (setup : Setup) (now later : ℕ) (requests requests' : List ProviderLookupRequest)
    (request : CallbackRequest) (w v : LookupWorld)
    → request.signature ≢ valid
    → Untouched w (receive_callback setup now requests request w)
      × Untouched v
          (apply_stored_callback setup later requests'
            (callback_row request.signature now request)
            v).1
unfolding receive_callback
receive_callback-unsigned setup now later requests requests' request w v n = (
  rw (unsigned request.signature n) (refl, refl),
  apply_stored_callback-none setup later requests' _ v (no_report request.signature n),
)
  where
    no_report :
        (s : Signature)
        → s ≢ valid
        → (callback_row s now request).normalized_result.lifecycle_status ≡ Lifecycle.other
    no_report Signature.valid m = absurd (m refl)
    no_report Signature.invalid m = refl
    no_report Signature.unknown m = refl

    unsigned : (s : Signature) → s ≢ valid → is_valid s ≡ false
    unsigned Signature.valid m = absurd (m refl)
    unsigned Signature.invalid m = refl
    unsigned Signature.unknown m = refl
