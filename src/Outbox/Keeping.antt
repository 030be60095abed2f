-- ===== src/Outbox/Keeping.antt =====
-- internal/outbox/worker.go: what each single write keeps, the work on a job keeps.
use sms.Prelude.{
  ℕ, ◌+◌, ◌≡◌, refl, inl, inr, Bool, true, false, not, Option, some, none, Option-cases,
}
use sms.Prelude.Text.{Text, text_eq}
use sms.Store.Types.{
  Uuid, SmsMessage, SendJobStatus, send_uncertain, send_dead, SendJob, SendAttemptKind,
  rejected_4xx, rate_limited, Db,
}
use sms.Store.Errors.{Result, ok, err}
use sms.Store.Outbox.{touch_send_job_lock}
use sms.Store.Rows.{get_sms_message_by_id}
use sms.Outbox.Match.{StatisticRow}
use sms.Outbox.World.{
  World, Outside, SendOutcome, sent_as, send_failed, StatisticPage, page, statistic_not_configured,
  statistic_error, classify_error, deref, need_statistic, need_retry, allow_uncertain_retry,
}
use sms.Outbox.Parking.{park, touch_lock, latest_attempt_kind, Refusal, refusal, error_text}
use sms.Outbox.Accepting.{accept_from_stat, mark_accepted, apply_statistic, note_sms_id, with_db}
use sms.Outbox.Worker.{
  lookup_statistic, fail_message, if_parked, fail_dead, on_kind, on_answer, post, send,
  on_statistic, on_page, handle_uncertain, gone, process_message, process,
}
use sms.Outbox.Closed.{
  Closed, mark_accepted-Writes, apply_statistic-Writes, written-Writes, if_holds, wrote-Closed,
  or_same-Closed, note_sms_id-Closed, park-Closed, complete-Closed, accept-Closed,
}

module _ (P : World → Type 0) (c : Closed P) (worker now : ℕ) (decode : Text → Option (Text × Text))
    (job : SendJob) where
  parked :
      (status : SendJobStatus) (attempt : ℕ) (why : Text) (delay : ℕ) (w : World)
      → P w
      → P (park worker now job status attempt why delay w).1
  parked status attempt why delay w p =
      park-Closed P c worker now decode job status attempt why delay w p

  accept_from_stat-Closed :
      (msg : Uuid) (row : StatisticRow) (w : World)
      → P w
      → P (accept_from_stat worker now job msg row w)
  unfolding accept_from_stat
  accept_from_stat-Closed msg row w p = on_applied (apply_statistic msg row noted.db) refl
    where
      noted : World
      noted = note_sms_id row.sms_id w

      noted-P : P noted
      noted-P = note_sms_id-Closed P c row.sms_id w p

      on_marked :
          (applied : Db)
          → apply_statistic msg row noted.db ≡ ok applied
          → (r : Result Db) → mark_accepted msg (error_text row.sms_id) applied ≡ r
          → P (accept_from_stat worker now job msg row w)
      on_marked applied x (err e) y =
          rw (accept_from_stat, x, y)
            (parked send_uncertain job.attempt _ _ _ (
              wrote-Closed P c noted applied (apply_statistic-Writes msg row noted.db applied x)
                noted-P))
      on_marked applied x (ok db) y =
          rw (accept_from_stat, x, y)
            (complete-Closed P c worker now decode job _ (
              c.captured msg _ (
                wrote-Closed P c (with_db noted applied) db
                  (mark_accepted-Writes msg (error_text row.sms_id) applied db y)
                  (wrote-Closed P c noted applied
                    (apply_statistic-Writes msg row noted.db applied x) noted-P))))

      on_applied :
          (r : Result Db)
          → apply_statistic msg row noted.db ≡ r
          → P (accept_from_stat worker now job msg row w)
      on_applied (err e) x =
          rw (accept_from_stat, x) (parked send_uncertain job.attempt _ _ _ noted-P)
      on_applied (ok applied) x =
          on_marked applied x (mark_accepted msg (error_text row.sms_id) applied) refl

  fail_dead-Closed :
      (msg : Uuid) (attempt : ℕ) (reason : Text) (w : World)
      → P w
      → P (fail_dead worker now decode job msg attempt reason w)
  unfolding fail_dead fail_message
  fail_dead-Closed msg attempt reason w p =
      on_park (park worker now job send_dead attempt reason 0 w)
        (parked send_dead attempt reason 0 w p)
    where
      on_park :
          (r : Bool × World)
          → P r.1
          → P (if_parked worker now decode (fail_message worker now decode job msg reason) r)
      on_park (true, v) q = c.released msg _ (or_same-Closed P c v _ (written-Writes v.db _) q)
      on_park (false, v) q = q

  on_kind-Closed :
      (kind : SendAttemptKind) (msg : Uuid) (attempt : ℕ) (text : Text) (w : World)
      → P w
      → P (on_kind worker now decode kind job msg attempt text w)
  unfolding on_kind
  on_kind-Closed rejected_4xx msg attempt text w p = fail_dead-Closed msg attempt text w p
  on_kind-Closed rate_limited msg attempt text w p = parked _ attempt _ _ w p
  on_kind-Closed _ msg attempt text w p = parked _ attempt _ _ w p

  on_answer-Closed :
      (answer : SendOutcome) (msg : Uuid) (w : World)
      → P w
      → P (on_answer worker now decode answer job msg w)
  unfolding on_answer
  on_answer-Closed (sent_as pid) msg w p =
      accept-Closed P c worker now decode job msg pid (job.attempt + 1) w p
  on_answer-Closed (send_failed e) msg w p =
      if_holds P e.not_configured (parked _ _ _ _ w p)
        (on_kind-Closed (classify_error e) msg (job.attempt + 1) e.message w p)

  post-Closed :
      (refused : Refusal) (msg : Uuid) (out : Outside) (w : World)
      → P w
      → P (post worker now decode refused job msg out w)
  unfolding post
  post-Closed (some (reason, delay)) msg out w p = parked _ _ _ _ w p
  post-Closed none msg out w p =
      if_holds P (not out.has_adapter) (parked _ _ _ _ w p)
        (on_answer-Closed out.answer msg _ (c.tried job.id (job.attempt + 1) out w p))

  send-Closed :
      (msg : Uuid) (out : Outside) (w : World) → P w → P (send worker now decode job msg out w)
  unfolding send touch_lock
  send-Closed msg out w p =
      elim (Option-cases (touch_send_job_lock now job.id worker w.db.send_jobs)) [
        | inl missing ↦ rw (send, touch_lock, missing) p
        | inr (jobs, found) ↦
            rw (send, touch_lock, found) (post-Closed (refusal out job) msg out _ (c.jobs w jobs p))
      ]

  on_statistic-Closed :
      (found : Option StatisticRow) (msg : Uuid) (out : Outside) (w : World)
      → P w
      → P (on_statistic worker now decode found job msg out w)
  unfolding on_statistic
  on_statistic-Closed (some row) msg out w p = accept_from_stat-Closed msg row w p
  on_statistic-Closed none msg out w p =
      if_holds P (not (allow_uncertain_retry job.attempt (latest_attempt_kind job.id w)))
        (fail_dead-Closed msg job.attempt _ w p)
        (if_holds P (text_eq (deref job.last_error) need_retry) (send-Closed msg out w p)
          (parked _ _ _ _ w p))

  on_page-Closed :
      (r : StatisticPage × Option StatisticRow) (msg : Uuid) (out : Outside) (w : World)
      → P w
      → P (on_page worker now decode r job msg out w)
  unfolding on_page
  on_page-Closed (page rows, found) msg out w p = on_statistic-Closed found msg out w p
  on_page-Closed (statistic_not_configured, found) msg out w p = parked _ _ _ _ w p
  on_page-Closed (statistic_error, found) msg out w p = parked _ _ _ _ w p

  process_message-Closed :
      (msg : SmsMessage) (out : Outside) (w : World)
      → P w
      → P (process_message worker now decode job msg out w)
  unfolding process_message handle_uncertain
  process_message-Closed msg out w p =
      if_holds P (gone worker now decode job.client_id w.db) (parked _ _ _ _ w p) (
        if_holds P (need_statistic job) (on_page-Closed (lookup_statistic msg out w) msg.id out w p)
          (send-Closed msg.id out w p))

  pub process-Closed : (out : Outside) (w : World) → P w → P (process worker now decode job out w)
  unfolding process
  process-Closed out w p =
      elim (Option-cases (get_sms_message_by_id job.sms_message_id w.db.sms_messages)) [
        | inl missing ↦ rw (process, missing) (parked _ _ _ _ w p)
        | inr (msg, found) ↦ rw (process, found) (process_message-Closed msg out w p)
      ]
