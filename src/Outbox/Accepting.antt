-- ===== src/Outbox/Accepting.antt =====
-- internal/outbox/worker.go: what the worker writes on a message, and how it settles the hold.
use sms.Prelude.{ℕ, Option, none, some, List, ◌∷◌, ltb, if◌then◌else◌}
use sms.Prelude.Text.{Text}
use sms.Store.Types.{Uuid, SmsMessage, send_uncertain, SendJob, Db}
use sms.Store.Errors.{Result, ok, err, no_rows, unique_violation}
use sms.Store.Messages.{update_sms_message_accepted, update_sms_message_from_statistic}
use sms.Store.Outbox.{need_stat}
use sms.Billing.Sms.{capture_for_message, release_for_message, or_same}
use sms.Outbox.Match.{StatisticRow, is_blank}
use sms.Outbox.World.{World, uncertain_pause}
use sms.Outbox.Parking.{park, complete, error_text}

-- The new rows of a write, or the error.
abbrev pub written : Db → Result (List SmsMessage) → Result Db
written db (ok ms) = ok (record db { sms_messages = ms })
written db (err e) = err e

abbrev pub tolerate : Db → Result Db → Result Db
tolerate db (err no_rows) = ok db
tolerate db r = r

-- A provider id that another message has is left out in a second try.
abbrev pub without_id : Option Text → Result Db → Result Db → Result Db
without_id (some pid) (err unique_violation) again = again
without_id pid r again = r

unfoldable pub mark_accepted : Uuid → Option Text → Db → Result Db
mark_accepted id pid db =
    let again = tolerate db (written db (update_sms_message_accepted none id db.sms_messages)) in
    without_id pid (tolerate db (written db (update_sms_message_accepted pid id db.sms_messages)))
      again

unfoldable pub apply_statistic : Uuid → StatisticRow → Db → Result Db
apply_statistic id row db =
    let pid = error_text row.sms_id in
    let pdu = if ltb 0 row.pdu then some row.pdu else none in
    let again = tolerate db (
      written db
        (update_sms_message_from_statistic none pdu row.delivered row.sent id db.sms_messages)) in
    without_id pid
      (tolerate db (
        written db
          (update_sms_message_from_statistic pid pdu row.delivered row.sent id db.sms_messages)))
      again

-- An error of billing is logged.
unfoldable pub capture : Uuid → World → World
capture id w = record w { db = or_same w.db (capture_for_message id w.db) }

unfoldable pub release : Uuid → World → World
release id w = record w { db = or_same w.db (release_for_message id w.db) }

unfoldable pub note_sms_id : Text → World → World
note_sms_id id w = if is_blank id then w else record w { stat_used = id ∷ w.stat_used }

abbrev pub with_db : World → Db → World
with_db w db = record w { db = db }

module _ (worker now : ℕ) where
  unfoldable pub accept : SendJob → Uuid → Text → ℕ → World → World
  accept job msg provider_id attempt w = elim (mark_accepted msg (error_text provider_id) w.db) [
    | err e ↦ (park worker now job send_uncertain attempt need_stat uncertain_pause w).1
    | ok db ↦ complete worker now job (note_sms_id provider_id (capture msg (with_db w db)))
  ]

  unfoldable pub accept_from_stat : SendJob → Uuid → StatisticRow → World → World
  accept_from_stat job msg row w0 =
      let w = note_sms_id row.sms_id w0 in
      elim (apply_statistic msg row w.db) [
        | err e ↦ (park worker now job send_uncertain job.attempt need_stat uncertain_pause w).1
        | ok applied ↦ elim (mark_accepted msg (error_text row.sms_id) applied) [
          | err e ↦
              (park worker now job send_uncertain job.attempt need_stat uncertain_pause
                (with_db w applied)).1
          | ok db ↦ complete worker now job (capture msg (with_db w db))
        ]
      ]
