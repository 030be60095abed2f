-- ===== src/Lookup/ClosedWorker.antt =====
-- internal/lookup/worker.go: what each single write keeps is kept by a round of the worker.
use sms.Prelude.{
  ℕ, ◌+◌, ◌*◌, ◌≡◌, refl, ◌⊎◌, inl, inr, Bool, true, not, Option, none, some, List, [], ◌∷◌, arith,
  if◌then◌else◌, Bool-cases,
}
use sms.Prelude.Text.{codes}
use sms.Store.Types.{
  Uuid, Client, ClientStatus, active, suspended, deleted, LookupItem, LookupItemStatus, item_queued,
  item_reserved, item_pending, item_completed, item_failed, Db,
}
use sms.Store.Errors.{Result, ok, err}
use sms.Billing.Tariffs.{assert_lookup_assignment}
use sms.Billing.Reaper.{lookup_item_settle_action}
use sms.Lookup.State.{
  status_eq, can_transition_item, item_transitions, is_terminal_item, map_lifecycle_to_item_status,
}
use sms.Lookup.Items.{Transition, transition_lookup_item}
use sms.Lookup.Claims.{
  reserve_row, claim_queued_lookup_items_fair, claim_reserved_lookup_items_fair,
}
use sms.Lookup.World.{
  LookupWorld, Outside, Setup, View, IoError, SubmitResult, is_retryable_lookup_io,
}
use sms.Lookup.Ending.{with_db, on_item_terminal, fail_item}
use sms.Lookup.Submit.{
  after_transition, sending, apply_terminal_from_submit, or_pending, submitted_ok, on_submit,
  submit_active, submit_for, submit_item, submit_claimed, submit_reserved, submit,
}
use sms.Lookup.Closed.{Reaches, stays, goes, Allowed, Claimable, Closed, if_holds, item_holds}
use sms.Lookup.ClosedEndings.{on_item_terminal-Closed, fail_item-Closed, mark_processing-Closed}
use sms.Lookup.ClosedUpdates.{ends_open}

queued-Reaches : (s : LookupItemStatus) → status_eq s item_queued ≡ true → Reaches s item_reserved
unfolding can_transition_item item_transitions
queued-Reaches item_queued e = goes refl stays
queued-Reaches item_reserved e = stays
queued-Reaches item_pending e = cc
queued-Reaches item_completed e = cc
queued-Reaches item_failed e = cc

reserve-Claimable : (now : ℕ) → Claimable (λ i. status_eq i.status item_queued) (reserve_row now)
reserve-Claimable now = record {
  forward = λ i e. queued-Reaches i.status e;
  same_id = λ i. refl;
  same_polls = λ i. refl;
  same_job = λ i. refl;
  same_client = λ i. refl;
  same_price = λ i. refl;
}

module _ (P : LookupWorld → Type 0) (closed : Closed P) where
  pub after_transition-Closed :
      (now : ℕ) (t : Transition) (w : LookupWorld)
      → Allowed t
      → P w
      → P (after_transition w (transition_lookup_item now t w.db))
  after_transition-Closed now t w a p = after (transition_lookup_item now t w.db) refl
    where
      after :
          (o : Result (LookupItem × Db))
          → transition_lookup_item now t w.db ≡ o
          → P (after_transition w o)
      after (ok (i, db)) e = closed.items now t w i db a e p
      after (err x) e = p

  submitted_ok-Closed :
      (setup : Setup) (view : View) (now : ℕ) (item : LookupItem) (result : SubmitResult)
      (w : LookupWorld)
      → P w
      → P (submitted_ok setup view now item result w)
  unfolding submitted_ok apply_terminal_from_submit can_transition_item item_transitions
  submitted_ok-Closed setup view now item result w p =
      next_is
        (or_pending (map_lifecycle_to_item_status result.normalized.lifecycle_status item_reserved))
    where
      next_is :
          (next : LookupItemStatus)
          → P (
              if is_terminal_item next
              then apply_terminal_from_submit setup now item result next w
              else after_transition w (
                  transition_lookup_item now
                    (record (sending now item.id result item_pending) {
                      next_poll_at = some (now + view.poll_interval_sec * 1000);
                      poll_attempts = some 0;
                    })
                    w.db))
      next_is next = elim (Bool-cases (is_terminal_item next)) [
        | inr waits ↦ rw waits (
            after_transition-Closed now _ w
              (record {
                forward = (goes refl stays, (goes {b = item_reserved} refl (goes refl stays), tt));
                polls = omega arith;
              })
              p)
        | inl over ↦ rw over (
            let a = ends_open next over in
            let t = record (sending now item.id result next) { completed_at = some now } in
            item_holds P (transition_lookup_item now t w.db)
              (λ r. on_item_terminal setup now r.0 (lookup_item_settle_action r.0) (with_db w r.1))
              p
              λ r e. on_item_terminal-Closed P closed setup now r.0 _ (with_db w r.1) (
                closed.items now t w r.0 r.1 (record { forward = (a.1.0, (a.0, tt)); polls = tt }) e
                  p))
      ]

  on_submit-Closed :
      (setup : Setup) (view : View) (now : ℕ) (item : LookupItem) (answer : IoError ⊎ SubmitResult)
      (w : LookupWorld)
      → P w
      → P (on_submit setup view now item answer w)
  unfolding on_submit
  on_submit-Closed setup view now item (inl e) w p =
      if_holds P (is_retryable_lookup_io e) p (fail_item-Closed P closed setup now item _ _ w p)
  on_submit-Closed setup view now item (inr result) w p =
      submitted_ok-Closed setup view now item result w p

  submit_active-Closed :
      (setup : Setup) (view : View) (now : ℕ) (out : Outside) (item : LookupItem) (w : LookupWorld)
      → P w
      → P (submit_active setup view now out item w)
  unfolding submit_active
  submit_active-Closed setup view now out item w p =
      assigned (assert_lookup_assignment now item.client_id item.check_type w.db)
        (fail_item-Closed P closed setup now item _ _ w p)
        (if_holds P (not setup.has_provider) (fail_item-Closed P closed setup now item _ _ w p)
          (if_holds P out.is_limited p (on_submit-Closed setup view now item out.submitted w p)))
    where
      assigned :
          (o : Result (Unit {0})) {x y : LookupWorld}
          → P x
          → P y
          → P (elim o [ err e ↦ x | ok u ↦ y ])
      assigned (err e) a b = a
      assigned (ok u) a b = b

  submit_for-Closed :
      (client : Option Client) (setup : Setup) (view : View) (now : ℕ) (out : Outside)
      (item : LookupItem) (w : LookupWorld)
      → P w
      → P (submit_for client setup view now out item w)
  unfolding submit_for
  submit_for-Closed none setup view now out item w p =
      fail_item-Closed P closed setup now item _ _ w p
  submit_for-Closed (some client) setup view now out item w p = by_status client.status
    where
      by_status :
          (s : ClientStatus)
          → P (elim s as (λ x. LookupWorld) [
            | deleted ↦ w
            | suspended ↦
                fail_item setup now item (codes "client_suspended") (codes "client is not active") w
            | active ↦ submit_active setup view now out item w
          ])
      by_status deleted = p
      by_status suspended = fail_item-Closed P closed setup now item _ _ w p
      by_status active = submit_active-Closed setup view now out item w p

  submit_claimed-Closed :
      (setup : Setup) (view : View) (now : ℕ) (out : Uuid → Outside) (items : List LookupItem)
      (w : LookupWorld)
      → P w
      → P (submit_claimed setup view now out items w)
  unfolding submit_claimed submit_item
  submit_claimed-Closed setup view now out [] w p = p
  submit_claimed-Closed setup view now out (item ∷ items) w p =
      submit_for-Closed _ setup view now (out item.id) item _
        (mark_processing-Closed P closed now item.job_id w p)

  submit_reserved-Closed :
      (setup : Setup) (view : View) (now : ℕ) (out : Uuid → Outside) (w : LookupWorld)
      → P w
      → P (submit_reserved setup view now out w)
  unfolding submit_reserved claim_reserved_lookup_items_fair
  submit_reserved-Closed setup view now out w p = submit_claimed-Closed setup view now out _ _ (
      closed.claimed _ _ _ 1 1 w
        (record {
          forward = λ i e. stays;
          same_id = λ i. refl;
          same_polls = λ i. refl;
          same_job = λ i. refl;
          same_client = λ i. refl;
          same_price = λ i. refl;
        })
        p)

  pub submit-Closed :
      (setup : Setup) (view : View) (now : ℕ) (in_time : Bool) (out : Uuid → Outside)
      (w : LookupWorld)
      → P w
      → P (submit setup view now in_time out w)
  unfolding submit claim_queued_lookup_items_fair
  submit-Closed setup view now in_time out w p =
      let claimed =
        closed.claimed _ (λ i. i.created_at) (reserve_row now) 1 1 w (reserve-Claimable now) p in
      if_holds P _ p (
        if_holds P _ (submit_reserved-Closed setup view now out _ claimed)
          (submit_claimed-Closed setup view now out _ _ claimed))
