-- ===== src/Outbox/Tick.antt =====
-- internal/outbox/worker.go: one round of the worker: stale jobs, a batch, reconciliation, billing.
use sms.Prelude.{
  ℕ, zero, suc, ◌+◌, ◌-◌, Bool, true, false, ◌||◌, not, Option, none, some, List, [], ◌∷◌, length,
  ltb, leb, if◌then◌else◌,
}
use sms.Prelude.Text.{Text}
use sms.Store.Types.{Uuid, SmsMessage, SendJob, Db}
use sms.Store.Messages.{list_stale_outbound, get_open_assignment_by_msisdn, insert_inbound_message}
use sms.Store.Outbox.{reclaim_stale_send_jobs, claim_send_jobs_fair}
use sms.Msisdn.{canonical}
use sms.Billing.Sms.{or_same, reap_open_holds}
use sms.Outbox.Match.{StatisticRow, is_blank}
use sms.Outbox.World.{World, Outside, stale_processing, claim_batch}
use sms.Outbox.Accepting.{apply_statistic, capture, note_sms_id, with_db}
use sms.Outbox.Worker.{lookup_statistic, process}

abbrev pub inbox_stat_limit : ℕ
inbox_stat_limit = 50

abbrev pub inbox_stat_pages : ℕ
inbox_stat_pages = 20

-- more and truncated.
unfoldable pub next_inbox_statistic_page : ℕ → ℕ → ℕ → ℕ → Bool × Bool
next_inbox_statistic_page n limit page cap_pages =
    if ltb n limit
    then (false, false)
    else if leb cap_pages page
    then (false, true)
    else (true, false)

unfoldable pub reconcile_found : SmsMessage → Option StatisticRow → World → World
reconcile_found msg none w = w
reconcile_found msg (some row) w0 =
    let w = note_sms_id row.sms_id w0 in
    capture msg.id (with_db w (or_same w.db (apply_statistic msg.id row w.db)))

unfoldable pub reconcile_all : (Uuid → Outside) → List SmsMessage → World → World
reconcile_all out [] w = w
reconcile_all out (msg ∷ msgs) w =
    reconcile_all out msgs (reconcile_found msg (lookup_statistic msg (out msg.id) w).1 w)

unfoldable pub backfill_row : ℕ → StatisticRow → Db → Db
backfill_row now row db =
    let to = canonical row.receiver_number in
    let from = canonical row.sender_number in
    if not row.incoming || is_blank row.sms_id || is_blank to || is_blank from
    then db
    else insert_inbound_message (get_open_assignment_by_msisdn to db) from to row.message row.sms_id
        (if ltb 0 row.pdu then some row.pdu else none) now db

unfoldable pub backfill_rows : ℕ → List StatisticRow → Db → Db
backfill_rows now [] db = db
backfill_rows now (row ∷ rows) db = backfill_rows now rows (backfill_row now row db)

-- The pages from `page` on; `rounds` is as many as the cap allows. An error ends the loop.
unfoldable pub backfill_pages : ℕ → (ℕ → Option (List StatisticRow)) → ℕ → ℕ → Db → Db
backfill_pages now pages zero page db = db
backfill_pages now pages (suc rounds) page db = elim (pages page) [
  | none ↦ db
  | some rows ↦
      elim (next_inbox_statistic_page (length rows) inbox_stat_limit page inbox_stat_pages).0 [
        | true ↦ backfill_pages now pages rounds (page + 1) (backfill_rows now rows db)
        | false ↦ backfill_rows now rows db
      ]
]

-- `has_adapter` is w.rx != nil.
unfoldable pub backfill_inbox : ℕ → Bool → (ℕ → Option (List StatisticRow)) → Db → Db
backfill_inbox now has_adapter pages db =
    if has_adapter then backfill_pages now pages inbox_stat_pages 1 db else db

abbrev reconcile_age : ℕ
reconcile_age = 120_000

abbrev reconcile_limit : ℕ
reconcile_limit = 20

-- What the provider says in one round: of each job, of each message, and of its inbox.
pub record Round : Type 0 where
  pub of_job : Uuid → Outside
  pub of_message : Uuid → Outside
  pub has_adapter : Bool
  pub inbox : ℕ → Option (List StatisticRow)

unfoldable pub reconcile : ℕ → Round → World → World
reconcile now round w =
    let msgs = list_stale_outbound (now - reconcile_age) reconcile_limit w.db.sms_messages in
    let after = reconcile_all round.of_message msgs w in
    with_db after (backfill_inbox now round.has_adapter round.inbox after.db)

-- lastRec is zero, or 15 seconds ago.
abbrev pub is_due : ℕ → Option ℕ → Bool
is_due now none = true
is_due now (some last) = leb (last + 15_000) now

module _ (worker now : ℕ) (decode : Text → Option (Text × Text)) where
  unfoldable pub process_all : (Uuid → Outside) → List SendJob → World → World
  process_all out [] w = w
  process_all out (job ∷ jobs) w =
      process_all out jobs (process worker now decode job (out job.id) w)

  -- The rows that are claimed, and the world in which they are.
  unfoldable pub claim : World → List SendJob × World
  claim w =
      let reclaimed = reclaim_stale_send_jobs now (now - stale_processing) w.db.send_jobs in
      let (jobs, table) = claim_send_jobs_fair now worker claim_batch w.db.clients reclaimed in
      (jobs, record w { db = record (w.db) { send_jobs = table }; stat_used = [] })

  unfoldable pub reconcile_if_due : Round → World → World
  reconcile_if_due round w =
      if is_due now w.last_rec then record (reconcile now round w) { last_rec = some now } else w

  unfoldable pub tick : Round → World → ℕ × World
  tick round w0 =
      let (jobs, w) = claim w0 in
      let after = reconcile_if_due round (process_all round.of_job jobs w) in
      (length jobs, with_db after (reap_open_holds 50 after.db).1)
