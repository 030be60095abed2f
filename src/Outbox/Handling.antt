-- ===== src/Outbox/Handling.antt =====
-- internal/outbox/worker.go: every way through process ends the work on its job, in the table of jobs.
use sms.Prelude.{
  ℕ, ◌+◌, refl, inl, inr, Bool, true, false, Option, some, none, Bool-cases, Option-cases,
}
use sms.Prelude.Text.{Text, text_eq}
use sms.Store.Types.{
  Uuid, SmsMessage, send_dead, SendJob, SendAttemptKind, rejected_4xx, rate_limited,
}
use sms.Store.Outbox.{touched, touch_send_job_lock}
use sms.Store.Rows.{get_sms_message_by_id}
use sms.Outbox.Match.{StatisticRow}
use sms.Outbox.World.{
  World, Outside, SendOutcome, sent_as, send_failed, StatisticPage, page, statistic_not_configured,
  statistic_error, classify_error, deref, need_statistic, need_retry, allow_uncertain_retry,
}
use sms.Outbox.Parking.{park, touch_lock, record_attempt, latest_attempt_kind, Refusal, refusal}
use sms.Outbox.Worker.{
  lookup_statistic, fail_message, if_parked, fail_dead, on_kind, on_answer, post, send,
  on_statistic, on_page, handle_uncertain, gone, process_message, process,
}
use sms.Outbox.Untouched.{SameJobs, SameJobs-trans, or_written-SameJobs, release-SameJobs}
use sms.Outbox.Effects.{lost, owned_none, park-Ends, Ends-touched}
use sms.Outbox.Endings.{Ended, accept-Ends, accept_from_stat-Ends}

module _ (worker now : ℕ) (decode : Text → Option (Text × Text)) (job : SendJob) where
  fail_message-SameJobs :
      (msg : Uuid) (reason : Text) (w : World)
      → SameJobs w.db (fail_message worker now decode job msg reason w).db
  unfolding fail_message
  fail_message-SameJobs msg reason w =
      SameJobs-trans (or_written-SameJobs w.db _) (release-SameJobs msg _)

  fail_dead-Ends :
      (msg : Uuid) (attempt : ℕ) (reason : Text) (w : World)
      → Ended worker job w (fail_dead worker now decode job msg attempt reason w)
  unfolding fail_dead
  fail_dead-Ends msg attempt reason w =
      on_park (park worker now job send_dead attempt reason 0 w)
        (park-Ends worker now job send_dead attempt reason 0 w refl)
    where
      on_park :
          (r : Bool × World)
          → Ended worker job w r.1
          → Ended worker job w
              (if_parked worker now decode (fail_message worker now decode job msg reason) r)
      on_park (true, v) e = rw ((fail_message-SameJobs msg reason v).jobs) e
      on_park (false, v) e = e

  on_kind-Ends :
      (kind : SendAttemptKind) (msg : Uuid) (attempt : ℕ) (text : Text) (w : World)
      → Ended worker job w (on_kind worker now decode kind job msg attempt text w)
  unfolding on_kind
  on_kind-Ends rejected_4xx msg attempt text w = fail_dead-Ends msg attempt text w
  on_kind-Ends rate_limited msg attempt text w = park-Ends worker now job _ attempt _ _ w refl
  on_kind-Ends _ msg attempt text w = park-Ends worker now job _ attempt _ _ w refl

  on_answer-Ends :
      (answer : SendOutcome) (msg : Uuid) (w : World)
      → Ended worker job w (on_answer worker now decode answer job msg w)
  unfolding on_answer classify_error
  on_answer-Ends (sent_as pid) msg w = accept-Ends worker now job msg pid (job.attempt + 1) w
  on_answer-Ends (send_failed e) msg w = elim (Bool-cases e.not_configured) [
    | inl unset ↦ rw (on_answer, unset) (park-Ends worker now job _ _ _ _ w refl)
    | inr set ↦
        rw (on_answer, set) (on_kind-Ends (classify_error e) msg (job.attempt + 1) e.message w)
  ]

  post-Ends :
      (refused : Refusal) (msg : Uuid) (out : Outside) (w : World)
      → Ended worker job w (post worker now decode refused job msg out w)
  unfolding post record_attempt
  post-Ends (some (reason, delay)) msg out w = park-Ends worker now job _ _ _ _ w refl
  post-Ends none msg out w = elim (Bool-cases out.has_adapter) [
    | inl has ↦
        rw (post, has)
          (on_answer-Ends out.answer msg (record_attempt job.id (job.attempt + 1) out w))
    | inr without ↦ rw (post, without) (park-Ends worker now job _ _ _ _ w refl)
  ]

  send-Ends :
      (msg : Uuid) (out : Outside) (w : World)
      → Ended worker job w (send worker now decode job msg out w)
  unfolding send touch_lock touch_send_job_lock
  send-Ends msg out w = elim (Option-cases (touch_send_job_lock now job.id worker w.db.send_jobs)) [
    | inl missing ↦
        rw (send, touch_lock, missing)
          (lost (owned_none (touched now) (λ j. j) job.id worker w.db.send_jobs missing) refl)
    | inr (jobs, found) ↦
        rw (send, touch_lock, found)
          (Ends-touched now worker job.id w.db.send_jobs jobs found (
            post-Ends (refusal out job) msg out
              (record w { db = record (w.db) { send_jobs = jobs } })))
  ]

  on_statistic-Ends :
      (found : Option StatisticRow) (msg : Uuid) (out : Outside) (w : World)
      → Ended worker job w (on_statistic worker now decode found job msg out w)
  unfolding on_statistic
  on_statistic-Ends (some row) msg out w = accept_from_stat-Ends worker now job msg row w
  on_statistic-Ends none msg out w =
      elim (Bool-cases (allow_uncertain_retry job.attempt (latest_attempt_kind job.id w))) [
        | inr used_up ↦ rw (on_statistic, used_up) (fail_dead-Ends msg job.attempt _ w)
        | inl may ↦ elim (Bool-cases (text_eq (deref job.last_error) need_retry)) [
          | inl again ↦ rw (on_statistic, may, again) (send-Ends msg out w)
          | inr first ↦ rw (on_statistic, may, first) (park-Ends worker now job _ _ _ _ w refl)
        ]
      ]

  on_page-Ends :
      (r : StatisticPage × Option StatisticRow) (msg : Uuid) (out : Outside) (w : World)
      → Ended worker job w (on_page worker now decode r job msg out w)
  unfolding on_page
  on_page-Ends (page rows, found) msg out w = on_statistic-Ends found msg out w
  on_page-Ends (statistic_not_configured, found) msg out w = park-Ends worker now job _ _ _ _ w refl
  on_page-Ends (statistic_error, found) msg out w = park-Ends worker now job _ _ _ _ w refl

  process_message-Ends :
      (msg : SmsMessage) (out : Outside) (w : World)
      → Ended worker job w (process_message worker now decode job msg out w)
  unfolding process_message handle_uncertain
  process_message-Ends msg out w = elim (Bool-cases (gone worker now decode job.client_id w.db)) [
    | inl left ↦ rw (process_message, left) (park-Ends worker now job _ _ _ _ w refl)
    | inr there ↦ elim (Bool-cases (need_statistic job)) [
      | inl unsure ↦
          rw (process_message, there, unsure)
            (on_page-Ends (lookup_statistic msg out w) msg.id out w)
      | inr fresh ↦ rw (process_message, there, fresh) (send-Ends msg.id out w)
    ]
  ]

  -- The worker parks or completes the row that it owns, or changes no job at all.
  pub process-Ends :
      (out : Outside) (w : World) → Ended worker job w (process worker now decode job out w)
  unfolding process
  process-Ends out w =
      elim (Option-cases (get_sms_message_by_id job.sms_message_id w.db.sms_messages)) [
        | inl missing ↦ rw (process, missing) (park-Ends worker now job _ _ _ _ w refl)
        | inr (msg, found) ↦ rw (process, found) (process_message-Ends msg out w)
      ]
