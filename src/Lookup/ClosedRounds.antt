-- ===== src/Lookup/ClosedRounds.antt =====
-- internal/lookup/worker.go: what each single write keeps is kept by the polls, the reconciliation and
-- the whole round of the worker.
use sms.Prelude.{
  ℕ, ◌≡◌, refl, inl, inr, Bool, true, false, not, Option, none, some, List, [], ◌∷◌, ◌==◌,
  if◌then◌else◌, Bool-cases,
}
use sms.Store.Types.{Uuid, BillingAction, capture, release, LookupItem, Db}
use sms.Store.Errors.{Result, ok, err}
use sms.Store.Joins.{ListOpenLookupJobHoldsRow, list_open_lookup_job_holds}
use sms.Store.Rows.{list_unsettled_terminal_lookup_items}
use sms.Billing.Sms.{or_same, count_ok}
use sms.Billing.Lookup.{capture_for_lookup_item, release_for_lookup_item}
use sms.Billing.Reaper.{
  lookup_item_settle_action, reap_item_action, reap_lookup_item, reap_lookup_items, is_finished,
  reap_remainder, reap_job_row, reap_job_rows, reap_open_lookup_holds,
}
use sms.Webhooks.Deliver.{Answer}
use sms.Lookup.Apply.{NormalizedResult, hlr_fields_improved}
use sms.Lookup.Items.{bump_lookup_item_enrich_attempt, bumped}
use sms.Lookup.Claims.{touch_row, is_claimed}
use sms.Lookup.World.{LookupWorld, Outside, Setup, View, item_result}
use sms.Lookup.Ending.{with_db}
use sms.Lookup.Update.{patch_item}
use sms.Lookup.Stored.{reopen_callbacks}
use sms.Lookup.Worker.{reconcile_items}
use sms.Lookup.Enrich.{
  claim_lookup_items_needing_hlr_enrich, patch_enriched, bump_item, enrich_item, is_idle_client,
  enrich_all, enrich_terminal_hlr, Budget, lookup_tick,
}
use sms.Lookup.Closed.{stays, Keeps, Closed, if_holds}
use sms.Lookup.ClosedEndings.{finalize_ready-Closed}
use sms.Lookup.ClosedUpdates.{patching-Allowed}
use sms.Lookup.ClosedWorker.{after_transition-Closed, submit-Closed}
use sms.Lookup.ClosedCallbacks.{apply_stored_callbacks-Closed}
use sms.Lookup.ClosedPolls.{fail_stale-Closed, poll-Closed, touch_stale-Closed}

-- A change of some of the items.
some-Keeps :
    (p : LookupItem → Bool) (set : LookupItem → LookupItem)
    → Keeps set
    → Keeps (λ i. if p i then set i else i)
some-Keeps p set k = record {
  same_status = λ i. either (λ j. j.status) (p i) i (k.same_status i);
  same_id = λ i. either (λ j. j.id) (p i) i (k.same_id i);
  same_polls = λ i. either (λ j. j.poll_attempts) (p i) i (k.same_polls i);
  same_job = λ i. either (λ j. j.job_id) (p i) i (k.same_job i);
  same_client = λ i. either (λ j. j.client_id) (p i) i (k.same_client i);
  same_price = λ i. either (λ j. j.unit_sell_price) (p i) i (k.same_price i);
}
  where
    either :
        {A : Type 0} (f : LookupItem → A) (b : Bool) (i : LookupItem)
        → f (set i) ≡ f i
        → f (if b then set i else i) ≡ f i
    either f true i e = e
    either f false i e = refl

bumped-Keeps : (now : ℕ) (id : Uuid) → Keeps (λ i. if i.id == id then bumped now i else i)
bumped-Keeps now id =
    some-Keeps (λ i. i.id == id) (bumped now)
      (record {
        same_status = λ i. refl;
        same_id = λ i. refl;
        same_polls = λ i. refl;
        same_job = λ i. refl;
        same_client = λ i. refl;
        same_price = λ i. refl;
      })

touched-Keeps :
    (now : ℕ) (claimed : List LookupItem)
    → Keeps (λ i. if is_claimed claimed i then touch_row now i else i)
touched-Keeps now claimed = some-Keeps (is_claimed claimed) (touch_row now) (record {
  same_status = λ i. refl;
  same_id = λ i. refl;
  same_polls = λ i. refl;
  same_job = λ i. refl;
  same_client = λ i. refl;
  same_price = λ i. refl;
})

module _ (P : LookupWorld → Type 0) (closed : Closed P) where
  counted :
      (n : ℕ) (db : Db) (r : Result Db) (w : LookupWorld)
      → P (with_db w (or_same db r))
      → P (with_db w (count_ok n db r).1)
  counted n db (ok d) w p = p
  counted n db (err e) w p = p

  reap_lookup_item-Closed :
      (item : LookupItem) (n : ℕ) (db : Db) (w : LookupWorld)
      → P (with_db w db)
      → P (with_db w (reap_lookup_item item (n, db)).1)
  unfolding reap_lookup_item reap_item_action capture_for_lookup_item release_for_lookup_item
  reap_lookup_item-Closed item n db w p = by_action (lookup_item_settle_action item)
    where
      by_action : (a : Option BillingAction) → P (with_db w (reap_item_action a item.id n db).1)
      by_action (some capture) =
          counted n db (capture_for_lookup_item item.id db) w
            (closed.settled item.id true (with_db w db) p)
      by_action (some release) =
          counted n db (release_for_lookup_item item.id db) w
            (closed.settled item.id false (with_db w db) p)
      by_action none = p

  reap_lookup_items-Closed :
      (items : List LookupItem) (n : ℕ) (db : Db) (w : LookupWorld)
      → P (with_db w db)
      → P (with_db w (reap_lookup_items items (n, db)).1)
  unfolding reap_lookup_items
  reap_lookup_items-Closed [] n db w p = p
  reap_lookup_items-Closed (item ∷ items) n db w p =
      reap_lookup_items-Closed items (reap_lookup_item item (n, db)).0
        (reap_lookup_item item (n, db)).1 w (reap_lookup_item-Closed item n db w p)

  reap_remainder-Closed :
      (row : ListOpenLookupJobHoldsRow) (n : ℕ) (db : Db) (w : LookupWorld)
      → P (with_db w db)
      → P (with_db w (reap_remainder row (n, db)).1)
  unfolding reap_remainder
  reap_remainder-Closed row n db w p = elim (Bool-cases (is_finished row.job_status)) [
    | inl over ↦ rw (reap_remainder, over) (closed.remainder row.lookup_job_id (with_db w db) p)
    | inr runs ↦ rw (reap_remainder, runs) p
  ]

  reap_job_rows-Closed :
      (rows : List ListOpenLookupJobHoldsRow) (n : ℕ) (db : Db) (w : LookupWorld)
      → P (with_db w db)
      → P (with_db w (reap_job_rows rows (n, db)).1)
  unfolding reap_job_rows reap_job_row
  reap_job_rows-Closed [] n db w p = p
  reap_job_rows-Closed (row ∷ rows) n db w p =
      let items = list_unsettled_terminal_lookup_items row.lookup_job_id db.lookup_items in
      let reaped = reap_lookup_items items (n, db) in
      let after = reap_remainder row reaped in
      reap_job_rows-Closed rows after.0 after.1 w
        (reap_remainder-Closed row reaped.0 reaped.1 w (reap_lookup_items-Closed items n db w p))

  reap_open_lookup_holds-Closed :
      (w : LookupWorld) → P w → P (with_db w (reap_open_lookup_holds 50 w.db).1)
  unfolding reap_open_lookup_holds
  reap_open_lookup_holds-Closed w p =
      reap_job_rows-Closed (list_open_lookup_job_holds 50 w.db) 0 w.db w p

  reconcile_items-Closed :
      (setup : Setup) (view : View) (now : ℕ) (w : LookupWorld)
      → P w
      → P (reconcile_items setup view now w)
  unfolding reconcile_items reopen_callbacks
  reconcile_items-Closed setup view now w p =
      let reopened = closed.inbox w _ p in
      let touched = touch_stale-Closed P closed now _ _ reopened in
      let failed = fail_stale-Closed P closed setup view now _ _ touched in
      let done = finalize_ready-Closed P closed setup now _ failed in
      reap_open_lookup_holds-Closed _ done

  patch_enriched-Closed :
      (now : ℕ) (item : LookupItem) (n : NormalizedResult) (w : LookupWorld)
      → P w
      → P (patch_enriched now item n w)
  unfolding patch_enriched patch_item
  patch_enriched-Closed now item n w p =
      if_holds P (hlr_fields_improved n (item_result item))
        (after_transition-Closed P closed now _ w
          (patching-Allowed now item n item.status (item.status ∷ []) false (stays, tt)) p)
        p

  bump_item-Closed :
      (now : ℕ) (counts : Bool) (item : Uuid) (w : LookupWorld)
      → P w
      → P (bump_item now counts item w)
  unfolding bump_item bump_lookup_item_enrich_attempt
  bump_item-Closed now counts item w p =
      if_holds P counts (closed.touched _ w (bumped-Keeps now item) p) p

  enrich_all-Closed :
      (setup : Setup) (now : ℕ) (out : Uuid → Outside) (items : List LookupItem) (w : LookupWorld)
      → P w
      → P (enrich_all setup now out items w)
  unfolding enrich_all enrich_item
  enrich_all-Closed setup now out [] w p = p
  enrich_all-Closed setup now out (item ∷ items) w p = if_holds P (not (out item.id).in_time) p (
      if_holds P (is_idle_client item.client_id w.db) (enrich_all-Closed setup now out items w p) (
        enrich_all-Closed setup now out items _
          (bump_item-Closed now _ item.id _ (patch_enriched-Closed now item _ w p))))

  enrich_terminal_hlr-Closed :
      (setup : Setup) (now : ℕ) (out : Uuid → Outside) (w : LookupWorld)
      → P w
      → P (enrich_terminal_hlr setup now out w)
  unfolding enrich_terminal_hlr claim_lookup_items_needing_hlr_enrich
  enrich_terminal_hlr-Closed setup now out w p =
      if_holds P (not setup.has_provider) p
        (enrich_all-Closed setup now out _ _ (closed.touched _ w (touched-Keeps now _) p))

  -- What each single write keeps is kept by a round of the worker.
  pub lookup_tick-Closed :
      (setup : Setup) (view : View) (now : ℕ) (budget : Budget) (out : Uuid → Outside)
      (answer : Uuid → Answer) (w : LookupWorld)
      → P w
      → P (lookup_tick setup view now budget out answer w)
  unfolding lookup_tick
  lookup_tick-Closed setup view now budget out answer w p =
      let heard = apply_stored_callbacks-Closed P closed setup now budget.requests_before w p in
      let sent =
        if_holds P budget.may_submit
          (submit-Closed P closed setup view now budget.can_start out _ heard) heard in
      let asked =
        if_holds P budget.may_poll (poll-Closed P closed setup view now out _ sent) sent in
      let again = apply_stored_callbacks-Closed P closed setup now budget.requests_after _ asked in
      let enriched =
        if_holds P budget.may_enrich (enrich_terminal_hlr-Closed setup now out _ again) again in
      let done = finalize_ready-Closed P closed setup now _ enriched in
      let told = if_holds P budget.may_deliver (closed.hooks _ _ done) done in
      if_holds P budget.reconcile_due (reconcile_items-Closed setup view now _ told) told
