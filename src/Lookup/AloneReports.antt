-- ===== src/Lookup/AloneReports.antt =====
-- A report on an item that is named by its id changes no other item.
use mathlib.Core.Path.{subst}
use sms.Prelude.{ℕ, ◌≡◌, refl, true, false, ◌&&◌, not, Option, none, some, List, [], ◌∷◌, ◌==◌}
use sms.Store.Types.{LookupItem, LookupItemStatus, item_reserved, item_pending, item_completed, Db}
use sms.Store.Rows.{get_lookup_item}
use sms.Billing.Reaper.{lookup_item_settle_action}
use sms.Lookup.State.{status_eq, is_terminal_item, map_lifecycle_to_item_status}
use sms.Lookup.Apply.{NormalizedResult, is_hlr, hlr_fields_improved, merge_normalized_with_item}
use sms.Lookup.World.{LookupWorld, Outside, Setup, item_result}
use sms.Lookup.Ending.{with_db, on_item_terminal, open_statuses}
use sms.Lookup.Update.{
  patch_item, enrich_hlr, ApplyInput, ApplyOutcome, apply_result, patched, update_ended,
  update_pending, update_terminal, update_open, update_found, find_item, apply_provider_update,
}
use sms.Lookup.ClosedUpdates.{map_lifecycle-ends, patched-holds, if-snd, ended-holds, next-holds}
use sms.Lookup.Settling.{get_lookup_item-id}
use sms.Lookup.Alone.{Others, on_item_terminal-Others, patch_item-Others}

module _ (before : List LookupItem) (item : LookupItem) where
  abbrev Rest : LookupWorld → Type 0
  Rest = Others item.id before

  update_ended-Others :
      (setup : Setup) (now : ℕ) (out : Outside) (input : ApplyInput) (w : LookupWorld)
      → Rest w
      → Rest (update_ended setup now out input item w).1
  unfolding update_ended
  update_ended-Others setup now out input w p =
      let duplicate = apply_result false true false [] (some item) in
      let enriched = (enrich_hlr setup out item input.normalized).0 in
      let patch = patch_item now item enriched item_completed (item_completed ∷ []) false w.db in
      if-snd Rest
        (not input.skip_enrich
          && status_eq item.status item_completed
          && is_hlr (some item.check_type)
          && hlr_fields_improved enriched (item_result item))
        (patched w (λ e. duplicate) patch) (duplicate, w)
        (patched-holds Rest w (λ e. duplicate) patch p
          λ i db e.
            (patch_item-Others item.id before now item enriched item_completed (item_completed ∷ [])
              false w refl e p).1)
        p

  update_pending-Others :
      (now : ℕ) (n : NormalizedResult) (w : LookupWorld)
      → Rest w
      → Rest (update_pending now item n w).1
  unfolding update_pending
  update_pending-Others now n w p = patched-holds Rest w _ _ p λ i db e.
      (patch_item-Others item.id before now item n item_pending (item_pending ∷ item_reserved ∷ [])
        false w refl e p).1

  update_terminal-Others :
      (setup : Setup) (now : ℕ) (n : NormalizedResult) (next : LookupItemStatus) (w : LookupWorld)
      → Rest w
      → Rest (update_terminal setup now item n next w).1
  unfolding update_terminal
  update_terminal-Others setup now n next w p =
      ended-holds Rest (patch_item now item n next open_statuses true w.db)
        (λ r. on_item_terminal setup now r.0 (lookup_item_settle_action r.0) (with_db w r.1)) _ _ w
        p
        λ r e.
          let (named, rest) =
            patch_item-Others item.id before now item n next open_statuses true w refl e p in
          on_item_terminal-Others item.id before setup now r.0 _ (with_db w r.1) named rest

  update_open-Others :
      (setup : Setup) (now : ℕ) (out : Outside) (input : ApplyInput) (w : LookupWorld)
      → Rest w
      → Rest (update_open setup now out input item w).1
  unfolding update_open
  update_open-Others setup now out input w p =
      let n = merge_normalized_with_item input.normalized (item_result item) in
      next-holds Rest (map_lifecycle_to_item_status n.lifecycle_status item.status)
        (map_lifecycle-ends n.lifecycle_status item.status) _ _ _ p
        (update_pending-Others now n w p) λ next t. update_terminal-Others setup now _ next w p

  update_found-Others :
      (setup : Setup) (now : ℕ) (out : Outside) (input : ApplyInput) (w : LookupWorld)
      → Rest w
      → Rest (update_found setup now out input item w).1
  unfolding update_found
  update_found-Others setup now out input w p = if-snd Rest _ _ _ p (
      if-snd Rest (is_terminal_item item.status) _ _ (update_ended-Others setup now out input w p)
        (update_open-Others setup now out input w p))

find_item-named :
    (input : ApplyInput) (db : Db)
    → (input.job_item_id == 0) ≡ false
    → get_lookup_item input.job_item_id db.lookup_items ≡ find_item input db
unfolding find_item
find_item-named input db real = rw real refl

-- A report on the item with an id that is not the zero one.
pub apply_provider_update-Others :
    (setup : Setup) (now : ℕ) (out : Outside) (input : ApplyInput) (w : LookupWorld)
    → (input.job_item_id == 0) ≡ false
    → Others input.job_item_id w.db.lookup_items w
    → Others input.job_item_id w.db.lookup_items (apply_provider_update setup now out input w).1
unfolding apply_provider_update
apply_provider_update-Others setup now out input w real p =
    found (find_item input w.db) (find_item-named input w.db real)
  where
    found :
        (o : Option LookupItem)
        → get_lookup_item input.job_item_id w.db.lookup_items ≡ o
        → Others input.job_item_id w.db.lookup_items
            (elim o as (λ r. ApplyOutcome × LookupWorld) [
              | none ↦ (ApplyOutcome.apply_not_found, w)
              | some item ↦ update_found setup now out input item w
            ]).1
    found none e = p
    found (some item) e =
        let own = get_lookup_item-id input.job_item_id w.db.lookup_items e in
        subst
          (λ k.
            Others k w.db.lookup_items w
            → Others k w.db.lookup_items (update_found setup now out input item w).1)
          own (update_found-Others w.db.lookup_items item setup now out input w) p
