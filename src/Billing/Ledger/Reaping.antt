-- ===== src/Billing/Ledger/Reaping.antt =====
-- The reapers keep the invariant: each is a run of settlements, each its own transaction.
use sms.Prelude.{
  ℕ, suc, ◌+◌, ◌≤◌, ◌≡◌, refl, true, false, Option, none, some, List, [], ◌∷◌, arith, length, ltb,
  if◌then◌else◌, Bool-cases, inl, inr,
}
use sms.Store.Types.{Uuid, BillingAction, capture, release, Db, LookupItem}
use sms.Store.Errors.{Result, ok, err}
use sms.Store.Joins.{ListOpenHoldMessagesRow, list_open_hold_messages, ListOpenLookupJobHoldsRow}
use sms.Store.Rows.{list_unsettled_terminal_lookup_items}
use sms.Billing.Sms.{
  capture_for_message, release_for_message, settle_action, count_ok, or_same, reap_action, reap_row,
  reap_rows, reap_open_holds,
}
use sms.Billing.Lookup.{capture_for_lookup_item, release_for_lookup_item}
use sms.Billing.Reaper.{
  lookup_item_settle_action, reap_item_action, reap_lookup_item, reap_lookup_items, reap_remainder,
  reap_job_row, reap_job_rows, reap_open_lookup_holds, is_finished,
}
use sms.Billing.Ledger.Invariant.{Valid}
use sms.Billing.Ledger.Moves.{Moves, Moves-Valid}
use sms.Billing.Ledger.SmsMoves.{settle-Moves}
use sms.Billing.Ledger.RemainderMoves.{settle_lookup_item-Moves, release_lookup_job_remainder-Moves}

-- A settlement keeps the invariant, and is counted at most once.
count_ok-Valid :
    (n : ℕ) (db : Db) (r : Result Db)
    → Valid db
    → ((db' : Db) → r ≡ ok db' → Moves db db')
    → Valid (count_ok n db r).1 × ((count_ok n db r).0 ≤ suc n)
count_ok-Valid n db (ok db') v m = (Moves-Valid v (m db' refl), omega arith)
count_ok-Valid n db (err e) v m = (v, omega arith)

pub or_same-Valid :
    (db : Db) (r : Result Db)
    → Valid db
    → ((db' : Db) → r ≡ ok db' → Moves db db')
    → Valid (or_same db r)
or_same-Valid db (ok db') v m = Moves-Valid v (m db' refl)
or_same-Valid db (err e) v m = v

reap_action-Valid :
    (action : Option BillingAction) (message : Uuid) (n : ℕ) (db : Db)
    → Valid db
    → Valid (reap_action action message n db).1 × ((reap_action action message n db).0 ≤ suc n)
unfolding reap_action capture_for_message release_for_message
reap_action-Valid (some capture) message n db v =
    count_ok-Valid n db _ v (λ db' h. settle-Moves message true db v h)
reap_action-Valid (some release) message n db v =
    count_ok-Valid n db _ v (λ db' h. settle-Moves message false db v h)
reap_action-Valid none message n db v = (v, omega arith)

reap_rows-Valid :
    (rows : List ListOpenHoldMessagesRow) (n : ℕ) (db : Db)
    → Valid db
    → Valid (reap_rows rows (n, db)).1 × ((reap_rows rows (n, db)).0 ≤ n + length rows)
unfolding reap_rows reap_row
reap_rows-Valid [] n db v = (v, omega arith)
reap_rows-Valid (row ∷ rows) n db v =
    let head = reap_action-Valid (settle_action row) row.sms_message_id n db v in
    let rest = reap_rows-Valid rows (reap_row row (n, db)).0 (reap_row row (n, db)).1 head.0 in
    (rest.0, omega (arith, head.1, rest.1))

reap_item_action-Valid :
    (action : Option BillingAction) (item : Uuid) (n : ℕ) (db : Db)
    → Valid db
    → Valid (reap_item_action action item n db).1
unfolding reap_item_action capture_for_lookup_item release_for_lookup_item
reap_item_action-Valid (some capture) item n db v =
    (count_ok-Valid n db _ v (λ db' h. settle_lookup_item-Moves item true db v h)).0
reap_item_action-Valid (some release) item n db v =
    (count_ok-Valid n db _ v (λ db' h. settle_lookup_item-Moves item false db v h)).0
reap_item_action-Valid none item n db v = v

reap_lookup_items-Valid :
    (items : List LookupItem) (n : ℕ) (db : Db)
    → Valid db
    → Valid (reap_lookup_items items (n, db)).1
unfolding reap_lookup_items reap_lookup_item
reap_lookup_items-Valid [] n db v = v
reap_lookup_items-Valid (item ∷ items) n db v =
    reap_lookup_items-Valid items (reap_lookup_item item (n, db)).0
      (reap_lookup_item item (n, db)).1
      (reap_item_action-Valid (lookup_item_settle_action item) item.id n db v)

reap_remainder-Valid :
    (row : ListOpenLookupJobHoldsRow) (n : ℕ) (db : Db)
    → Valid db
    → Valid (reap_remainder row (n, db)).1
unfolding reap_remainder
reap_remainder-Valid row n db v = elim (Bool-cases (is_finished row.job_status)) [
  | inl e ↦
      rw e (
        or_same-Valid db _ v (λ db' h. release_lookup_job_remainder-Moves row.lookup_job_id db v h))
  | inr e ↦ rw e v
]

reap_job_row-Valid :
    (row : ListOpenLookupJobHoldsRow) (n : ℕ) (db : Db)
    → Valid db
    → Valid (reap_job_row row (n, db)).1
unfolding reap_job_row
reap_job_row-Valid row n db v = reap_remainder-Valid row _ _ (
    reap_lookup_items-Valid (list_unsettled_terminal_lookup_items row.lookup_job_id db.lookup_items)
      n db v)

reap_job_rows-Valid :
    (rows : List ListOpenLookupJobHoldsRow) (n : ℕ) (db : Db)
    → Valid db
    → Valid (reap_job_rows rows (n, db)).1
unfolding reap_job_rows
reap_job_rows-Valid [] n db v = v
reap_job_rows-Valid (row ∷ rows) n db v =
    reap_job_rows-Valid rows (reap_job_row row (n, db)).0 (reap_job_row row (n, db)).1
      (reap_job_row-Valid row n db v)

-- Both reapers keep the invariant of the ledger, whatever rows they find and whichever of their
-- settlements fail; the reaper of messages settles no more of them than it found open.
pub reapers-Valid :
    (limit : ℕ) (db : Db)
    → Valid db
    → Valid (reap_open_holds limit db).1
      × ((reap_open_holds limit db).0
          ≤ length (list_open_hold_messages (if ltb limit 1 then 50 else limit) db))
      × Valid (reap_open_lookup_holds limit db).1
unfolding reap_open_holds reap_open_lookup_holds
reapers-Valid limit db v =
    let messages = reap_rows-Valid _ 0 db v in
    (messages.0, omega (arith, messages.1), reap_job_rows-Valid _ 0 db v)
