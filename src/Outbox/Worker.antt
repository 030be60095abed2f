-- ===== src/Outbox/Worker.antt =====
-- internal/outbox/worker.go: how a claimed job is worked on.
use sms.Prelude.{ℕ, ◌+◌, Bool, true, false, not, Option, none, some, if◌then◌else◌}
use sms.Prelude.Text.{Text, codes, text_eq}
use sms.Store.Types.{
  Uuid, SmsMessage, send_retry, send_uncertain, send_dead, SendJob, SendAttemptKind, rejected_4xx,
  rate_limited, Db,
}
use sms.Store.Messages.{update_sms_message_failed}
use sms.Store.Outbox.{need_stat}
use sms.Store.Rows.{get_sms_message_by_id}
use sms.Billing.Post.{client_deleted}
use sms.Billing.Sms.{or_same}
use sms.Outbox.Match.{StatisticRow, match_statistic}
use sms.Outbox.World.{
  World, Outside, SendOutcome, sent_as, send_failed, StatisticPage, page, statistic_not_configured,
  statistic_error, classify_error, backoff_429, deref, need_statistic, need_retry,
  allow_uncertain_retry, uncertain_pause, retry_after_stat, half_minute,
}
use sms.Outbox.Parking.{park, touch_lock, record_attempt, latest_attempt_kind, Refusal, refusal}
use sms.Outbox.Accepting.{accept, accept_from_stat, release, written, with_db}
use sms.Outbox.Complaint.{provider_status_for_job}

unfoldable pub lookup_statistic : SmsMessage → Outside → World → StatisticPage × Option StatisticRow
lookup_statistic msg out w =
    if not out.has_adapter then (statistic_not_configured, none) else elim out.statistic [
      | page rows ↦
          (page rows, match_statistic msg.from_msisdn msg.to_msisdn msg.text rows w.stat_used)
      | statistic_not_configured ↦ (statistic_not_configured, none)
      | statistic_error ↦ (statistic_error, none)
    ]

module _ (worker now : ℕ) (decode : Text → Option (Text × Text)) where
  -- The message of a job that is parked dead; an error of the write is logged.
  unfoldable pub fail_message : SendJob → Uuid → Text → World → World
  fail_message job msg reason w =
      let status = provider_status_for_job decode job.id reason w.db in
      release msg (
        with_db w
          (or_same w.db (written w.db (update_sms_message_failed status msg w.db.sms_messages))))

  abbrev pub if_parked : (World → World) → Bool × World → World
  if_parked next (true, w) = next w
  if_parked next (false, w) = w

  unfoldable pub fail_dead : SendJob → Uuid → ℕ → Text → World → World
  fail_dead job msg attempt reason w =
      if_parked (fail_message job msg reason) (park worker now job send_dead attempt reason 0 w)

  -- The switch on the kind of an error.
  unfoldable pub on_kind : SendAttemptKind → SendJob → Uuid → ℕ → Text → World → World
  on_kind rejected_4xx job msg attempt text w = fail_dead job msg attempt text w
  on_kind rate_limited job msg attempt text w =
      (park worker now job send_retry attempt text (backoff_429 attempt) w).1
  on_kind _ job msg attempt text w =
      (park worker now job send_uncertain attempt need_stat uncertain_pause w).1

  -- After rx.Send, with the attempt recorded.
  unfoldable pub on_answer : SendOutcome → SendJob → Uuid → World → World
  on_answer (sent_as pid) job msg w = accept worker now job msg pid (job.attempt + 1) w
  on_answer (send_failed e) job msg w =
      if e.not_configured
      then (park worker now job send_retry job.attempt e.message half_minute w).1
      else on_kind (classify_error e) job msg (job.attempt + 1) e.message w

  -- With the lock, and unless something is refused: the request goes out here.
  unfoldable pub post : Refusal → SendJob → Uuid → Outside → World → World
  post (some (reason, delay)) job msg out w =
      (park worker now job send_retry job.attempt reason delay w).1
  post none job msg out w =
      if not out.has_adapter
      then (park worker now job send_retry job.attempt (codes "runexis adapter unavailable")
          half_minute w).1
      else on_answer out.answer job msg (record_attempt job.id (job.attempt + 1) out w)

  unfoldable pub send : SendJob → Uuid → Outside → World → World
  send job msg out w = elim (touch_lock worker now job w) [
    | none ↦ w
    | some owned ↦ post (refusal out job) job msg out owned
  ]

  -- A page was read: found, or not.
  unfoldable pub on_statistic : Option StatisticRow → SendJob → Uuid → Outside → World → World
  on_statistic (some row) job msg out w = accept_from_stat worker now job msg row w
  on_statistic none job msg out w =
      if not (allow_uncertain_retry job.attempt (latest_attempt_kind job.id w))
      then fail_dead job msg job.attempt (codes "uncertain: not found in statistic after retry") w
      else if text_eq (deref job.last_error) need_retry
      then send job msg out w
      else (park worker now job send_uncertain job.attempt need_retry retry_after_stat w).1

  unfoldable pub on_page :
      StatisticPage × Option StatisticRow → SendJob → Uuid → Outside → World → World
  on_page (page rows, found) job msg out w = on_statistic found job msg out w
  on_page (statistic_not_configured, found) job msg out w =
      (park worker now job send_uncertain job.attempt need_stat half_minute w).1
  on_page (statistic_error, found) job msg out w =
      (park worker now job send_uncertain job.attempt need_stat uncertain_pause w).1

  unfoldable pub handle_uncertain : SendJob → SmsMessage → Outside → World → World
  handle_uncertain job msg out w = on_page (lookup_statistic msg out w) job msg.id out w

  abbrev pub gone : Option Uuid → Db → Bool
  gone none db = false
  gone (some client) db = client_deleted client db

  unfoldable pub process_message : SendJob → SmsMessage → Outside → World → World
  process_message job msg out w =
      if gone job.client_id w.db
      then (park worker now job send_dead job.attempt (codes "client deleted") 0 w).1
      else if need_statistic job
      then handle_uncertain job msg out w
      else send job msg.id out w

  unfoldable pub process : SendJob → Outside → World → World
  process job out w = elim (get_sms_message_by_id job.sms_message_id w.db.sms_messages) [
    | none ↦ (park worker now job send_dead job.attempt (deref job.last_error) 0 w).1
    | some msg ↦ process_message job msg out w
  ]
