-- ===== src/Lookup/ClosedUpdates.antt =====
-- internal/lookup/worker.go: what each single write keeps is kept by a report on an item.
use sms.Prelude.{
  ℕ, ◌≡◌, refl, inl, inr, Bool, true, false, ◌&&◌, not, Option, none, some, List, [], ◌∷◌, All,
  arith, if◌then◌else◌, Bool-cases,
}
use sms.Store.Types.{
  LookupItem, LookupItemStatus, item_queued, item_reserved, item_pending, item_completed,
  item_failed, Db,
}
use sms.Store.Errors.{Err, Result, ok, err}
use sms.Billing.Reaper.{lookup_item_settle_action}
use sms.Lookup.State.{
  Lifecycle, status_eq, can_transition_item, item_transitions, is_terminal_item,
  map_lifecycle_to_item_status,
}
use sms.Lookup.Apply.{NormalizedResult, is_hlr, hlr_fields_improved, merge_normalized_with_item}
use sms.Lookup.Items.{Transition}
use sms.Lookup.World.{LookupWorld, Outside, Setup, item_result}
use sms.Lookup.Ending.{with_db, on_item_terminal, open_statuses}
use sms.Lookup.Update.{
  patching, patch_item, enrich_hlr, ApplyInput, ApplyOutcome, apply_result, patched, update_ended,
  update_pending, update_terminal, update_open, update_found, find_item, apply_provider_update,
}
use sms.Lookup.Closed.{Reaches, stays, goes, Allowed, Closed}
use sms.Lookup.ClosedEndings.{on_item_terminal-Closed}

if-Allowed : (b : Bool) {s t : Transition} → Allowed s → Allowed t → Allowed (if b then s else t)
if-Allowed true p q = p
if-Allowed false p q = q

pub patching-Allowed :
    (now : ℕ) (item : LookupItem) (n : NormalizedResult) (to : LookupItemStatus)
    (from : List LookupItemStatus) (terminal : Bool)
    → All (λ f. Reaches f to) from
    → Allowed (patching now item n to from terminal)
patching-Allowed now item n to from true a = record { forward = a; polls = tt }
patching-Allowed now item n to from false a =
    if-Allowed (status_eq to item_pending) (record { forward = a; polls = tt })
      (record { forward = a; polls = tt })

-- From an open status an item can end in either way.
pub ends_open :
    (next : LookupItemStatus)
    → is_terminal_item next ≡ true
    → All (λ f. Reaches f next) open_statuses
unfolding can_transition_item item_transitions is_terminal_item
ends_open item_completed e =
    (goes {b = item_reserved} refl (goes refl stays), (goes refl stays, (goes refl stays, tt)))
ends_open item_failed e = (goes refl stays, (goes refl stays, (goes refl stays, tt)))
ends_open item_queued e = cc
ends_open item_reserved e = cc
ends_open item_pending e = cc

-- A report that does not leave an item pending ends it.
pub map_lifecycle-ends :
    (lifecycle : Lifecycle) (current next : LookupItemStatus)
    → map_lifecycle_to_item_status lifecycle current ≡ some next
    → status_eq next item_pending ≡ false
    → is_terminal_item next ≡ true
unfolding map_lifecycle_to_item_status is_terminal_item
map_lifecycle-ends lifecycle current next e h = ground arith

module _ (P : LookupWorld → Type 0) where
  pub patched-holds :
      (w : LookupWorld) (refused : Err → ApplyOutcome) (o : Result (LookupItem × Db))
      → P w
      → ((i : LookupItem) (db : Db) → o ≡ ok (i, db) → P (with_db w db))
      → P (patched w refused o).1
  patched-holds w refused (ok (i, db)) p k = k i db refl
  patched-holds w refused (err e) p k = p

  pub if-snd :
      (b : Bool) (x y : ApplyOutcome × LookupWorld) → P x.1 → P y.1 → P (if b then x else y).1
  if-snd true x y p q = p
  if-snd false x y p q = q

  pub ended-holds :
      (o : Result (LookupItem × Db)) (k : LookupItem × Db → LookupWorld) (f : Err → ApplyOutcome)
      (g : LookupItem × Db → ApplyOutcome) (w : LookupWorld)
      → P w
      → ((r : LookupItem × Db) → o ≡ ok r → P (k r))
      → P (elim o as (λ r. ApplyOutcome × LookupWorld) [ err e ↦ (f e, w) | ok r ↦ (g r, k r) ]).1
  ended-holds (err e) k f g w p q = p
  ended-holds (ok r) k f g w p q = q r refl

  pub next-holds :
      (o : Option LookupItemStatus)
      → ((next : LookupItemStatus)
          → o ≡ some next
          → status_eq next item_pending ≡ false
          → is_terminal_item next ≡ true)
      → (x y : ApplyOutcome × LookupWorld) (k : LookupItemStatus → ApplyOutcome × LookupWorld)
      → P x.1
      → P y.1
      → ((next : LookupItemStatus) → is_terminal_item next ≡ true → P (k next).1)
      → P
          (elim o as (λ r. ApplyOutcome × LookupWorld) [
            | none ↦ x
            | some next ↦ if status_eq next item_pending then y else k next
          ]).1
  next-holds none t x y k a b c = a
  next-holds (some next) t x y k a b c = elim (Bool-cases (status_eq next item_pending)) [
    | inl pending ↦ rw pending b
    | inr other ↦ rw other (c next (t next refl other))
  ]

module _ (P : LookupWorld → Type 0) (closed : Closed P) where
  pub patch_item-Closed :
      (now : ℕ) (item : LookupItem) (n : NormalizedResult) (to : LookupItemStatus)
      (from : List LookupItemStatus) (terminal : Bool) (w : LookupWorld) (i : LookupItem) (db : Db)
      → All (λ f. Reaches f to) from
      → patch_item now item n to from terminal w.db ≡ ok (i, db)
      → P w
      → P (with_db w db)
  unfolding patch_item
  patch_item-Closed now item n to from terminal w i db a e p =
      closed.items now _ w i db (patching-Allowed now item n to from terminal a) e p

  update_ended-Closed :
      (setup : Setup) (now : ℕ) (out : Outside) (input : ApplyInput) (item : LookupItem)
      (w : LookupWorld)
      → P w
      → P (update_ended setup now out input item w).1
  unfolding update_ended
  update_ended-Closed setup now out input item w p =
      let duplicate = apply_result false true false [] (some item) in
      let enriched = (enrich_hlr setup out item input.normalized).0 in
      let patch = patch_item now item enriched item_completed (item_completed ∷ []) false w.db in
      if-snd P
        (not input.skip_enrich
          && status_eq item.status item_completed
          && is_hlr (some item.check_type)
          && hlr_fields_improved enriched (item_result item))
        (patched w (λ e. duplicate) patch) (duplicate, w)
        (patched-holds P w (λ e. duplicate) patch p
          λ i db e.
            patch_item-Closed now item enriched item_completed (item_completed ∷ []) false w i db
              (stays, tt) e p)
        p

  update_pending-Closed :
      (now : ℕ) (item : LookupItem) (n : NormalizedResult) (w : LookupWorld)
      → P w
      → P (update_pending now item n w).1
  unfolding update_pending can_transition_item item_transitions
  update_pending-Closed now item n w p = patched-holds P w _ _ p λ i db e.
      patch_item-Closed now item n item_pending (item_pending ∷ item_reserved ∷ []) false w i db
        (stays, (goes refl stays, tt)) e p

  update_terminal-Closed :
      (setup : Setup) (now : ℕ) (item : LookupItem) (n : NormalizedResult) (next : LookupItemStatus)
      (w : LookupWorld)
      → is_terminal_item next ≡ true
      → P w
      → P (update_terminal setup now item n next w).1
  unfolding update_terminal
  update_terminal-Closed setup now item n next w t p =
      ended-holds P (patch_item now item n next open_statuses true w.db)
        (λ r. on_item_terminal setup now r.0 (lookup_item_settle_action r.0) (with_db w r.1)) _ _ w
        p
        λ r e.
          on_item_terminal-Closed P closed setup now r.0 _ (with_db w r.1)
            (patch_item-Closed now item n next open_statuses true w r.0 r.1 (ends_open next t) e p)

  update_open-Closed :
      (setup : Setup) (now : ℕ) (out : Outside) (input : ApplyInput) (item : LookupItem)
      (w : LookupWorld)
      → P w
      → P (update_open setup now out input item w).1
  unfolding update_open
  update_open-Closed setup now out input item w p =
      let n = merge_normalized_with_item input.normalized (item_result item) in
      next-holds P (map_lifecycle_to_item_status n.lifecycle_status item.status)
        (map_lifecycle-ends n.lifecycle_status item.status) _ _ _ p
        (update_pending-Closed now item n w p)
        λ next t. update_terminal-Closed setup now item _ next w t p

  pub apply_provider_update-Closed :
      (setup : Setup) (now : ℕ) (out : Outside) (input : ApplyInput) (w : LookupWorld)
      → P w
      → P (apply_provider_update setup now out input w).1
  unfolding apply_provider_update update_found
  apply_provider_update-Closed setup now out input w p = found (find_item input w.db)
    where
      found :
          (o : Option LookupItem)
          → P
              (elim o as (λ r. ApplyOutcome × LookupWorld) [
                | none ↦ (ApplyOutcome.apply_not_found, w)
                | some item ↦ update_found setup now out input item w
              ]).1
      found none = p
      found (some item) = if-snd P _ _ _ p (
          if-snd P (is_terminal_item item.status) _ _
            (update_ended-Closed setup now out input item w p)
            (update_open-Closed setup now out input item w p))
