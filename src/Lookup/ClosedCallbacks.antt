-- ===== src/Lookup/ClosedCallbacks.antt =====
-- internal/lookup/callback.go: what each single write of the worker keeps is kept by the callbacks.
use sms.Prelude.{ℕ, ◌≡◌, refl, Bool, true, false, ◌&&◌, not, List, [], ◌∷◌, if◌then◌else◌}
use sms.Prelude.Text.{Text}
use sms.Store.Types.{LookupItem}
use sms.Lookup.Apply.{is_blank}
use sms.Lookup.Callbacks.{ProviderLookupCallback, ProviderLookupRequest}
use sms.Lookup.World.{LookupWorld, Outside, Setup, client_is_deleted}
use sms.Lookup.Update.{apply_provider_update}
use sms.Lookup.Incoming.{
  IncomingCallback, Picked, picked, unpicked, callback_phones_match, apply_to_item, picked_of,
  apply_incoming, update_of,
}
use sms.Lookup.Stored.{
  no_call, incoming_from_stored, should_mark_stored_callback, mark_stored, apply_stored_callback,
  apply_rows, apply_stored_callbacks, drain_callbacks,
}
use sms.Lookup.Closed.{Closed}
use sms.Lookup.ClosedEndings.{finalize_ready-Closed}
use sms.Lookup.ClosedUpdates.{apply_provider_update-Closed}

module _ (P : LookupWorld → Type 0) where
  -- What a test leaves of the state, each branch under its outcome.
  pub if_leaves :
      {A : Type 0} (b : Bool) (x y : A × LookupWorld)
      → (b ≡ true → P x.1)
      → (b ≡ false → P y.1)
      → P (if b then x else y).1
  if_leaves true x y p q = p refl
  if_leaves false x y p q = q refl

  pick_leaves :
      {A : Type 0} (o : Picked) (f : Text → A × LookupWorld) (g : LookupItem → A × LookupWorld)
      → ((reason : Text) → P (f reason).1)
      → ((item : LookupItem) → o ≡ picked item → P (g item).1)
      → P (elim o as (λ r. A × LookupWorld) [ unpicked reason ↦ f reason | picked item ↦ g item ]).1
  pick_leaves (unpicked reason) f g p q = p reason
  pick_leaves (picked item) f g p q = q item refl

  -- A callback leaves the state as it is, or as a report on the item that it has found.
  pub apply_incoming-leaves :
      (setup : Setup) (now : ℕ) (out : Outside) (requests : List ProviderLookupRequest)
      (input : IncomingCallback) (w : LookupWorld)
      → P w
      → ((item : LookupItem)
          → picked_of now requests input w.db.lookup_items ≡ picked item
          → callback_phones_match item.phone_digits input.phone_digits ≡ true
          → client_is_deleted item.client_id w.db ≡ false
          → P (apply_provider_update setup now out (update_of input item) w).1)
      → P (apply_incoming setup now out requests input w).1
  unfolding apply_incoming apply_to_item
  apply_incoming-leaves setup now out requests input w p k =
      if_leaves (is_blank input.provider_message_id && is_blank input.phone_digits) _ _ (λ e. p)
        λ e.
          pick_leaves (picked_of now requests input w.db.lookup_items) _ _ (λ reason. p)
            λ item f.
              if_leaves (not (callback_phones_match item.phone_digits input.phone_digits)) _ _
                (λ g. p)
                λ g.
                  if_leaves (client_is_deleted item.client_id w.db) _ _ (λ h. p)
                    (k item f (unfalse _ g))
    where
      unfalse : (b : Bool) → not b ≡ false → b ≡ true
      unfalse true e = refl
      unfalse false e = cc

  -- A row of the callbacks is marked, or not.
  pub apply_stored_callback-leaves :
      (setup : Setup) (now : ℕ) (requests : List ProviderLookupRequest)
      (row : ProviderLookupCallback) (w : LookupWorld)
      → (let after = (apply_incoming setup now no_call requests (incoming_from_stored row) w).1 in
          P after
          → ((cs : List ProviderLookupCallback) → P (record after { callbacks = cs }))
          → P (apply_stored_callback setup now requests row w).1)
  unfolding apply_stored_callback mark_stored
  apply_stored_callback-leaves setup now requests row w p k =
      if_leaves
        (not (
          should_mark_stored_callback now row.created_at
            (apply_incoming setup now no_call requests (incoming_from_stored row) w).0))
        _ _ (λ e. p) λ e. k _

module _ (P : LookupWorld → Type 0) (closed : Closed P) where
  pub apply_incoming-Closed :
      (setup : Setup) (now : ℕ) (out : Outside) (requests : List ProviderLookupRequest)
      (input : IncomingCallback) (w : LookupWorld)
      → P w
      → P (apply_incoming setup now out requests input w).1
  apply_incoming-Closed setup now out requests input w p =
      apply_incoming-leaves P setup now out requests input w p
        λ item e f g. apply_provider_update-Closed P closed setup now out (update_of input item) w p

  apply_stored_callback-Closed :
      (setup : Setup) (now : ℕ) (requests : List ProviderLookupRequest)
      (row : ProviderLookupCallback) (w : LookupWorld)
      → P w
      → P (apply_stored_callback setup now requests row w).1
  apply_stored_callback-Closed setup now requests row w p =
      let applied =
        apply_incoming-Closed setup now no_call requests (incoming_from_stored row) w p in
      apply_stored_callback-leaves P setup now requests row w applied
        λ cs. closed.inbox _ cs applied

  apply_rows-Closed :
      (setup : Setup) (now : ℕ) (requests : List ProviderLookupRequest)
      (rows : List ProviderLookupCallback) (w : LookupWorld)
      → P w
      → P (apply_rows setup now requests rows w).1
  unfolding apply_rows
  apply_rows-Closed setup now requests [] w p = p
  apply_rows-Closed setup now requests (row ∷ rows) w p =
      apply_rows-Closed setup now requests rows _
        (apply_stored_callback-Closed setup now requests row w p)

  pub apply_stored_callbacks-Closed :
      (setup : Setup) (now : ℕ) (requests : List ProviderLookupRequest) (w : LookupWorld)
      → P w
      → P (apply_stored_callbacks setup now requests w).1
  unfolding apply_stored_callbacks
  apply_stored_callbacks-Closed setup now requests w p = apply_rows-Closed setup now requests _ w p

  pub drain_callbacks-Closed :
      (setup : Setup) (now : ℕ) (requests : List ProviderLookupRequest) (w : LookupWorld)
      → P w
      → P (drain_callbacks setup now requests w)
  unfolding drain_callbacks
  drain_callbacks-Closed setup now requests w p =
      finalize_ready-Closed P closed setup now _
        (apply_stored_callbacks-Closed setup now requests w p)
