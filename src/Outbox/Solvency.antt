-- ===== src/Outbox/Solvency.antt =====
-- internal/outbox/worker.go and internal/billing: a round of the worker keeps the ledger in order.
use sms.Prelude.{
  ℕ, zero, suc, ◌+◌, refl, inl, inr, Bool, true, false, Option, some, none, List, [], ◌∷◌, length,
  Bool-cases, Option-cases, if◌then◌else◌,
}
use sms.Prelude.Text.{Text}
use sms.Store.Types.{Uuid, SmsMessage, SendJob, Db}
use sms.Store.Messages.{insert_inbound_message, has_provider_id}
use sms.Billing.Sms.{settle, or_same, capture_for_message, release_for_message}
use sms.Outbox.Match.{StatisticRow}
use sms.Outbox.World.{World, Outside}
use sms.Outbox.Parking.{record_attempt}
use sms.Outbox.Accepting.{apply_statistic, note_sms_id, capture, release}
use sms.Outbox.Worker.{lookup_statistic}
use sms.Outbox.Tick.{
  inbox_stat_limit, inbox_stat_pages, next_inbox_statistic_page, reconcile_found, reconcile_all,
  backfill_row, backfill_rows, backfill_pages, backfill_inbox, Round, reconcile, is_due,
  process_all, claim, reconcile_if_due, tick,
}
use sms.Billing.Ledger.Invariant.{Valid}
use sms.Billing.Ledger.Moves.{next-Valid, stays, Moves-Valid}
use sms.Billing.Ledger.SmsMoves.{settle-Moves}
use sms.Billing.Ledger.Reaping.{or_same-Valid, reapers-Valid}
use sms.Outbox.Closed.{Closed, apply_statistic-Writes, or_same-Closed, note_sms_id-Closed}
use sms.Outbox.Keeping.{process-Closed}

-- The ledger of the worker's database is in order.
abbrev pub IsSolvent : World → Type 0
IsSolvent w = Valid w.db

settled-Valid :
    (id : Uuid) (is_capture : Bool) (db : Db)
    → Valid db
    → Valid (or_same db (settle id is_capture db))
settled-Valid id is_capture db v =
    or_same-Valid db (settle id is_capture db) v (λ d e. settle-Moves id is_capture db v e)

capture-IsSolvent : (id : Uuid) (w : World) → IsSolvent w → IsSolvent (capture id w)
unfolding capture capture_for_message
capture-IsSolvent id w v = settled-Valid id true w.db v

release-IsSolvent : (id : Uuid) (w : World) → IsSolvent w → IsSolvent (release id w)
unfolding release release_for_message
release-IsSolvent id w v = settled-Valid id false w.db v

IsSolvent-Closed : Closed IsSolvent
unfolding record_attempt
IsSolvent-Closed = record {
  jobs = λ w js v. Moves-Valid v (stays refl refl refl);
  messages = λ w ms v. Moves-Valid v (stays refl refl refl);
  tried = λ id n out w v. Moves-Valid v (stays refl refl refl);
  noted = λ w used v. v;
  captured = capture-IsSolvent;
  released = release-IsSolvent;
}

insert_inbound_message-Valid :
    (client : Option Uuid) (from to text pid : Text) (pdu : Option ℕ) (now : ℕ) (db : Db)
    → Valid db
    → Valid (insert_inbound_message client from to text pid pdu now db)
unfolding insert_inbound_message
insert_inbound_message-Valid client from to text pid pdu now db v =
    elim (Bool-cases (has_provider_id pid db.sms_messages)) [
      | inl known ↦ rw (insert_inbound_message, known) v
      | inr fresh ↦ rw (insert_inbound_message, fresh) (next-Valid refl refl refl v)
    ]

if-Valid : (b : Bool) {x y : Db} → Valid x → Valid y → Valid (if b then x else y)
if-Valid true p q = p
if-Valid false p q = q

backfill_row-Valid :
    (now : ℕ) (r : StatisticRow) (db : Db) → Valid db → Valid (backfill_row now r db)
unfolding backfill_row
backfill_row-Valid now r db v = if-Valid _ v (insert_inbound_message-Valid _ _ _ _ _ _ now db v)

backfill_rows-Valid :
    (now : ℕ) (rows : List StatisticRow) (db : Db) → Valid db → Valid (backfill_rows now rows db)
unfolding backfill_rows
backfill_rows-Valid now [] db v = v
backfill_rows-Valid now (r ∷ rows) db v =
    backfill_rows-Valid now rows (backfill_row now r db) (backfill_row-Valid now r db v)

backfill_pages-Valid :
    (now : ℕ) (pages : ℕ → Option (List StatisticRow)) (rounds n : ℕ) (db : Db)
    → Valid db
    → Valid (backfill_pages now pages rounds n db)
unfolding backfill_pages
backfill_pages-Valid now pages zero n db v = v
backfill_pages-Valid now pages (suc rounds) n db v = elim (Option-cases (pages n)) [
  | inl failed ↦ rw (backfill_pages, failed) v
  | inr (rows, read) ↦
      elim (Bool-cases
        (next_inbox_statistic_page (length rows) inbox_stat_limit n inbox_stat_pages).0) [
          | inl more ↦
              rw (backfill_pages, read, more)
                (backfill_pages-Valid now pages rounds (n + 1) (backfill_rows now rows db)
                  (backfill_rows-Valid now rows db v))
          | inr last ↦ rw (backfill_pages, read, last) (backfill_rows-Valid now rows db v)
        ]
]

reconcile_found-IsSolvent :
    (msg : SmsMessage) (r : Option StatisticRow) (w : World)
    → IsSolvent w
    → IsSolvent (reconcile_found msg r w)
unfolding reconcile_found
reconcile_found-IsSolvent msg none w v = v
reconcile_found-IsSolvent msg (some r) w v =
    let noted = note_sms_id r.sms_id w in
    capture-IsSolvent msg.id _ (
      or_same-Closed IsSolvent IsSolvent-Closed noted (apply_statistic msg.id r noted.db)
        (apply_statistic-Writes msg.id r noted.db)
        (note_sms_id-Closed IsSolvent IsSolvent-Closed r.sms_id w v))

reconcile_all-IsSolvent :
    (out : Uuid → Outside) (msgs : List SmsMessage) (w : World)
    → IsSolvent w
    → IsSolvent (reconcile_all out msgs w)
unfolding reconcile_all
reconcile_all-IsSolvent out [] w v = v
reconcile_all-IsSolvent out (msg ∷ msgs) w v =
    reconcile_all-IsSolvent out msgs _
      (reconcile_found-IsSolvent msg (lookup_statistic msg (out msg.id) w).1 w v)

reconcile-IsSolvent :
    (now : ℕ) (round : Round) (w : World) → IsSolvent w → IsSolvent (reconcile now round w)
unfolding reconcile backfill_inbox
reconcile-IsSolvent now round w v =
    let kept = reconcile_all-IsSolvent round.of_message _ w v in
    if-Valid round.has_adapter (backfill_pages-Valid now round.inbox inbox_stat_pages 1 _ kept) kept

module _ (worker now : ℕ) (decode : Text → Option (Text × Text)) where
  process_all-IsSolvent :
      (out : Uuid → Outside) (jobs : List SendJob) (w : World)
      → IsSolvent w
      → IsSolvent (process_all worker now decode out jobs w)
  unfolding process_all
  process_all-IsSolvent out [] w v = v
  process_all-IsSolvent out (job ∷ jobs) w v =
      process_all-IsSolvent out jobs _
        (process-Closed IsSolvent IsSolvent-Closed worker now decode job (out job.id) w v)

  claim-IsSolvent : (w : World) → IsSolvent w → IsSolvent (claim worker now decode w).1
  unfolding claim
  claim-IsSolvent w v = Moves-Valid v (stays refl refl refl)

  reconcile_if_due-IsSolvent :
      (round : Round) (w : World)
      → IsSolvent w
      → IsSolvent (reconcile_if_due worker now decode round w)
  unfolding reconcile_if_due
  reconcile_if_due-IsSolvent round w v = elim (Bool-cases (is_due now w.last_rec)) [
    | inl due ↦ rw (reconcile_if_due, due) (reconcile-IsSolvent now round w v)
    | inr early ↦ rw (reconcile_if_due, early) v
  ]

  -- A round of the worker keeps the ledger in order: whatever comes of the jobs, the balances stay
  -- the sums of the ledger's rows, no more is settled than was held, and nothing held is negative.
  pub tick-IsSolvent :
      (round : Round) (w : World) → IsSolvent w → IsSolvent (tick worker now decode round w).1
  unfolding tick
  tick-IsSolvent round w v =
      let claimed = claim worker now decode w in
      let worked = process_all-IsSolvent round.of_job claimed.0 claimed.1 (claim-IsSolvent w v) in
      let after = reconcile_if_due-IsSolvent round _ worked in (reapers-Valid 50 _ after).0
