-- ===== src/Outbox/Reconciling.antt =====
-- internal/outbox/worker.go, reconcile and ReapOpenHolds leave the jobs alone.
use sms.Prelude.{
  ℕ, zero, suc, ◌+◌, ◌≡◌, refl, inl, inr, Bool, true, false, Option, some, none, List, [], ◌∷◌,
  length, Bool-cases, Option-cases, if◌then◌else◌,
}
use sms.Prelude.Text.{Text}
use sms.Store.Types.{Uuid, BillingAction, capture, release, SmsMessage, Db}
use sms.Store.Errors.{Result, ok, err}
use sms.Store.Joins.{ListOpenHoldMessagesRow}
use sms.Store.Messages.{insert_inbound_message, has_provider_id}
use sms.Billing.Sms.{
  settle, count_ok, capture_for_message, release_for_message, settle_action, reap_action, reap_row,
  reap_rows, reap_open_holds,
}
use sms.Outbox.Match.{StatisticRow}
use sms.Outbox.World.{World, Outside}
use sms.Outbox.Accepting.{apply_statistic, note_sms_id}
use sms.Outbox.Worker.{lookup_statistic}
use sms.Outbox.Tick.{
  inbox_stat_limit, inbox_stat_pages, next_inbox_statistic_page, reconcile_found, reconcile_all,
  backfill_row, backfill_rows, backfill_pages, backfill_inbox, Round, reconcile, is_due,
  reconcile_if_due,
}
use sms.Outbox.Untouched.{
  SameJobs, SameJobs-refl, SameJobs-trans, settle-SameJobs, or_same-SameJobs,
  apply_statistic-SameJobs, capture-SameJobs,
}
use sms.Outbox.Endings.{note_sms_id-SameJobs}

-- The reaper of holds.
count_ok-SameJobs :
    (n : ℕ) (db : Db) (r : Result Db)
    → ((db' : Db) → r ≡ ok db' → SameJobs db db')
    → SameJobs db (count_ok n db r).1
count_ok-SameJobs n db (ok d) k = k d refl
count_ok-SameJobs n db (err e) k = SameJobs-refl db

reap_action-SameJobs :
    (a : Option BillingAction) (id : Uuid) (n : ℕ) (db : Db) → SameJobs db (reap_action a id n db).1
unfolding reap_action capture_for_message release_for_message
reap_action-SameJobs (some capture) id n db =
    count_ok-SameJobs n db (settle id true db) (λ d e. settle-SameJobs id true db e)
reap_action-SameJobs (some release) id n db =
    count_ok-SameJobs n db (settle id false db) (λ d e. settle-SameJobs id false db e)
reap_action-SameJobs none id n db = SameJobs-refl db

reap_rows-SameJobs :
    (rows : List ListOpenHoldMessagesRow) (n : ℕ) (db : Db) → SameJobs db (reap_rows rows (n, db)).1
unfolding reap_rows reap_row
reap_rows-SameJobs [] n db = SameJobs-refl db
reap_rows-SameJobs (r ∷ rows) n db =
    let next = reap_action (settle_action r) r.sms_message_id n db in
    SameJobs-trans (reap_action-SameJobs (settle_action r) r.sms_message_id n db)
      (reap_rows-SameJobs rows next.0 next.1)

pub reap_open_holds-SameJobs : (limit : ℕ) (db : Db) → SameJobs db (reap_open_holds limit db).1
unfolding reap_open_holds
reap_open_holds-SameJobs limit db = reap_rows-SameJobs _ 0 db

-- Reconciliation with the provider's statistic, and the inbox.
reconcile_found-SameJobs :
    (msg : SmsMessage) (r : Option StatisticRow) (w : World)
    → SameJobs w.db (reconcile_found msg r w).db
unfolding reconcile_found
reconcile_found-SameJobs msg none w = SameJobs-refl w.db
reconcile_found-SameJobs msg (some r) w =
    let noted = note_sms_id r.sms_id w in
    SameJobs-trans (note_sms_id-SameJobs r.sms_id w) (
      SameJobs-trans
        (or_same-SameJobs noted.db (apply_statistic msg.id r noted.db)
          (apply_statistic-SameJobs msg.id r noted.db))
        (capture-SameJobs msg.id _))

reconcile_all-SameJobs :
    (out : Uuid → Outside) (msgs : List SmsMessage) (w : World)
    → SameJobs w.db (reconcile_all out msgs w).db
unfolding reconcile_all
reconcile_all-SameJobs out [] w = SameJobs-refl w.db
reconcile_all-SameJobs out (msg ∷ msgs) w =
    SameJobs-trans (reconcile_found-SameJobs msg (lookup_statistic msg (out msg.id) w).1 w)
      (reconcile_all-SameJobs out msgs _)

insert_inbound_message-SameJobs :
    (client : Option Uuid) (from to text pid : Text) (pdu : Option ℕ) (now : ℕ) (db : Db)
    → SameJobs db (insert_inbound_message client from to text pid pdu now db)
unfolding insert_inbound_message
insert_inbound_message-SameJobs client from to text pid pdu now db =
    elim (Bool-cases (has_provider_id pid db.sms_messages)) [
      | inl known ↦ rw (insert_inbound_message, known) (SameJobs-refl db)
      | inr fresh ↦ rw (insert_inbound_message, fresh) (record { jobs = refl; attempts = refl })
    ]

if-SameJobs :
    (b : Bool) (db x y : Db) → SameJobs db x → SameJobs db y → SameJobs db (if b then x else y)
if-SameJobs true db x y h k = h
if-SameJobs false db x y h k = k

backfill_row-SameJobs : (now : ℕ) (r : StatisticRow) (db : Db) → SameJobs db (backfill_row now r db)
unfolding backfill_row
backfill_row-SameJobs now r db =
    if-SameJobs _ db db _ (SameJobs-refl db) (insert_inbound_message-SameJobs _ _ _ _ _ _ now db)

backfill_rows-SameJobs :
    (now : ℕ) (rows : List StatisticRow) (db : Db) → SameJobs db (backfill_rows now rows db)
unfolding backfill_rows
backfill_rows-SameJobs now [] db = SameJobs-refl db
backfill_rows-SameJobs now (r ∷ rows) db =
    SameJobs-trans (backfill_row-SameJobs now r db) (backfill_rows-SameJobs now rows _)

backfill_pages-SameJobs :
    (now : ℕ) (pages : ℕ → Option (List StatisticRow)) (rounds n : ℕ) (db : Db)
    → SameJobs db (backfill_pages now pages rounds n db)
unfolding backfill_pages
backfill_pages-SameJobs now pages zero n db = SameJobs-refl db
backfill_pages-SameJobs now pages (suc rounds) n db = elim (Option-cases (pages n)) [
  | inl failed ↦ rw (backfill_pages, failed) (SameJobs-refl db)
  | inr (rows, read) ↦
      elim (Bool-cases
        (next_inbox_statistic_page (length rows) inbox_stat_limit n inbox_stat_pages).0) [
          | inl more ↦
              rw (backfill_pages, read, more)
                (SameJobs-trans (backfill_rows-SameJobs now rows db)
                  (backfill_pages-SameJobs now pages rounds (n + 1) (backfill_rows now rows db)))
          | inr last ↦ rw (backfill_pages, read, last) (backfill_rows-SameJobs now rows db)
        ]
]

backfill_inbox-SameJobs :
    (now : ℕ) (has_adapter : Bool) (pages : ℕ → Option (List StatisticRow)) (db : Db)
    → SameJobs db (backfill_inbox now has_adapter pages db)
unfolding backfill_inbox
backfill_inbox-SameJobs now has_adapter pages db =
    if-SameJobs has_adapter db _ db (backfill_pages-SameJobs now pages inbox_stat_pages 1 db)
      (SameJobs-refl db)

reconcile-SameJobs :
    (now : ℕ) (round : Round) (w : World) → SameJobs w.db (reconcile now round w).db
unfolding reconcile
reconcile-SameJobs now round w =
    SameJobs-trans (reconcile_all-SameJobs round.of_message _ w)
      (backfill_inbox-SameJobs now round.has_adapter round.inbox _)

pub reconcile_if_due-SameJobs :
    (worker now : ℕ) (decode : Text → Option (Text × Text)) (round : Round) (w : World)
    → SameJobs w.db (reconcile_if_due worker now decode round w).db
unfolding reconcile_if_due
reconcile_if_due-SameJobs worker now decode round w = elim (Bool-cases (is_due now w.last_rec)) [
  | inl due ↦ rw (reconcile_if_due, due) (reconcile-SameJobs now round w)
  | inr early ↦ rw (reconcile_if_due, early) (SameJobs-refl w.db)
]
