-- ===== src/Lookup/ClosedPolls.antt =====
-- internal/lookup/worker.go: what each single write keeps is kept by the polls of items and by what
-- is done about stale ones.
use sms.Prelude.{
  ℕ, ◌+◌, ◌*◌, ◌≤◌, ◌≡◌, refl, ◌⊎◌, inl, inr, Bool, false, ◌||◌, not, List, [], ◌∷◌, arith, leb,
  Bool-cases,
}
use sms.Store.Types.{Uuid, LookupItem}
use sms.Lookup.State.{is_terminal_item}
use sms.Lookup.Apply.{NormalizedResult, is_blank, deref}
use sms.Lookup.Claims.{claim_pending_lookup_items_fair, poll_time, lease_row}
use sms.Lookup.World.{LookupWorld, Outside, Setup, View, IoError, fair_clients}
use sms.Lookup.Update.{apply_provider_update}
use sms.Lookup.Worker.{
  reschedule_poll, became_terminal, polled, on_fetch, has_timed_out, poll_item,
  release_pending_lease, poll_all, poll, touch_stale, fail_stale,
}
use sms.Lookup.Closed.{stays, Closed, if_holds}
use sms.Lookup.ClosedEndings.{refresh-Closed, fail_item-Closed}
use sms.Lookup.ClosedUpdates.{apply_provider_update-Closed}
use sms.Lookup.ClosedWorker.{after_transition-Closed}

module _ (P : LookupWorld → Type 0) (closed : Closed P) where
  reschedule_poll-Closed :
      (view : View) (now : ℕ) (item : LookupItem) (w : LookupWorld)
      → item.poll_attempts + 1 ≤ 120
      → P w
      → P (reschedule_poll view now item w)
  unfolding reschedule_poll
  reschedule_poll-Closed view now item w h p =
      after_transition-Closed P closed now _ w (record { forward = (stays, tt); polls = h }) p

  on_fetch-Closed :
      (setup : Setup) (view : View) (now : ℕ) (out : Outside) (item : LookupItem)
      (answer : IoError ⊎ NormalizedResult) (w : LookupWorld)
      → item.poll_attempts + 1 ≤ 120
      → P w
      → P (on_fetch setup view now out item answer w)
  unfolding on_fetch
  on_fetch-Closed setup view now out item (inl e) w h p =
      if_holds P _ (reschedule_poll-Closed view now item w h p)
        (fail_item-Closed P closed setup now item _ _ w p)
  on_fetch-Closed setup view now out item (inr n) w h p =
      let after = apply_provider_update-Closed P closed setup now out (polled item n) w p in
      if_holds P (became_terminal (apply_provider_update setup now out (polled item n) w).0) after
        (reschedule_poll-Closed view now item _ h after)

  pub poll_item-Closed :
      (setup : Setup) (view : View) (now : ℕ) (out : Outside) (item : LookupItem) (w : LookupWorld)
      → P w
      → P (poll_item setup view now out item w)
  unfolding poll_item
  poll_item-Closed setup view now out item w p =
      if_holds P (is_terminal_item item.status) (refresh-Closed P closed now item.job_id w p) (
        if_holds P (is_blank (deref item.provider_message_id))
          (fail_item-Closed P closed setup now item _ _ w p)
          (elim (Bool-cases (has_timed_out view now item)) [
            | inl over ↦ rw over (fail_item-Closed P closed setup now item _ _ w p)
            | inr early ↦ rw early (
                let h = some_left _ item.poll_attempts early in
                if_holds P (not setup.has_provider) (reschedule_poll-Closed view now item w h p)
                  (on_fetch-Closed setup view now out item out.fetched w h p))
          ]))
    where
      some_left : (b : Bool) (n : ℕ) → (b || leb 120 n) ≡ false → n + 1 ≤ 120
      some_left b n e = ground arith

  pub release_pending_lease-Closed :
      (now : ℕ) (item : LookupItem) (w : LookupWorld) → P w → P (release_pending_lease now item w)
  unfolding release_pending_lease
  release_pending_lease-Closed now item w p =
      after_transition-Closed P closed now _ w (record { forward = (stays, tt); polls = tt }) p

  poll_all-Closed :
      (setup : Setup) (view : View) (now : ℕ) (out : Uuid → Outside) (items : List LookupItem)
      (w : LookupWorld)
      → P w
      → P (poll_all setup view now out items w)
  unfolding poll_all
  poll_all-Closed setup view now out [] w p = p
  poll_all-Closed setup view now out (item ∷ items) w p =
      poll_all-Closed setup view now out items _ (
        if_holds P (out item.id).in_time (poll_item-Closed setup view now (out item.id) item w p)
          (release_pending_lease-Closed now item w p))

  pub poll-Closed :
      (setup : Setup) (view : View) (now : ℕ) (out : Uuid → Outside) (w : LookupWorld)
      → P w
      → P (poll setup view now out w)
  unfolding poll claim_pending_lookup_items_fair
  poll-Closed setup view now out w p = poll_all-Closed setup view now out _ _ (
      closed.claimed _ poll_time (lease_row now) fair_clients _ w
        (record {
          forward = λ i e. stays;
          same_id = λ i. refl;
          same_polls = λ i. refl;
          same_job = λ i. refl;
          same_client = λ i. refl;
          same_price = λ i. refl;
        })
        p)

  pub touch_stale-Closed :
      (now : ℕ) (items : List LookupItem) (w : LookupWorld) → P w → P (touch_stale now items w)
  unfolding touch_stale
  touch_stale-Closed now [] w p = p
  touch_stale-Closed now (item ∷ items) w p =
      touch_stale-Closed now items _ (release_pending_lease-Closed now item w p)

  pub fail_stale-Closed :
      (setup : Setup) (view : View) (now : ℕ) (items : List LookupItem) (w : LookupWorld)
      → P w
      → P (fail_stale setup view now items w)
  unfolding fail_stale
  fail_stale-Closed setup view now [] w p = p
  fail_stale-Closed setup view now (item ∷ items) w p = fail_stale-Closed setup view now items _ (
      if_holds P (leb (item.created_at + view.check_timeout_sec * 1000) now)
        (fail_item-Closed P closed setup now item _ _ w p) p)
