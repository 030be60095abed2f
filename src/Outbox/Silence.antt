-- ===== src/Outbox/Silence.antt =====
-- internal/outbox/worker.go: which of the worker's writes record no attempt.
use sms.Prelude.{
  ℕ, ◌+◌, ◌≡◌, refl, ◌∙◌, inl, inr, Bool, true, false, Option, Bool-cases, Option-cases,
}
use sms.Prelude.Text.{Text}
use sms.Store.Types.{
  Uuid, SendJobStatus, send_uncertain, send_dead, SendJob, SendAttemptKind, rejected_4xx,
  rate_limited, Db,
}
use sms.Store.Errors.{Result, ok, err}
use sms.Store.Outbox.{park_send_job, complete_send_job}
use sms.Outbox.Match.{StatisticRow}
use sms.Outbox.World.{World, SendOutcome, sent_as, send_failed, classify_error}
use sms.Outbox.Parking.{park, complete, error_text}
use sms.Outbox.Accepting.{
  accept, accept_from_stat, mark_accepted, apply_statistic, note_sms_id, with_db,
}
use sms.Outbox.Worker.{fail_message, if_parked, fail_dead, on_kind, on_answer}
use sms.Outbox.Untouched.{
  SameJobs-trans, or_written-SameJobs, release-SameJobs, capture-SameJobs, mark_accepted-SameJobs,
  apply_statistic-SameJobs,
}
use sms.Outbox.Endings.{note_sms_id-SameJobs}

-- No request: the attempts are as before.
abbrev pub Quiet : World → World → Type 0
Quiet a b = b.db.send_attempts ≡ a.db.send_attempts

module _ (worker now : ℕ) (decode : Text → Option (Text × Text)) (job : SendJob) where
  pub park-Quiet :
      (status : SendJobStatus) (attempt : ℕ) (why : Text) (delay : ℕ) (w : World)
      → Quiet w (park worker now job status attempt why delay w).1
  unfolding park
  park-Quiet status attempt why delay w =
      elim (Option-cases (
        park_send_job status attempt (now + delay) (error_text why) job.id worker w.db.send_jobs)) [
          | inl missing ↦ rw (park, missing) refl
          | inr (jobs, found) ↦ rw (park, found) refl
        ]

  complete-Quiet : (w : World) → Quiet w (complete worker now job w)
  unfolding complete
  complete-Quiet w = elim (Option-cases (complete_send_job job.id worker w.db.send_jobs)) [
    | inl missing ↦ rw (complete, missing) refl
    | inr (jobs, found) ↦ rw (complete, found) refl
  ]

  accept-Quiet :
      (msg : Uuid) (pid : Text) (attempt : ℕ) (w : World)
      → Quiet w (accept worker now job msg pid attempt w)
  unfolding accept
  accept-Quiet msg pid attempt w = on_written (mark_accepted msg (error_text pid) w.db) refl
    where
      on_written :
          (r : Result Db)
          → mark_accepted msg (error_text pid) w.db ≡ r
          → Quiet w (accept worker now job msg pid attempt w)
      on_written (err e) x = rw (accept, x) (park-Quiet send_uncertain attempt _ _ w)
      on_written (ok db) x =
          rw (accept, x)
            (complete-Quiet _
              ∙ (SameJobs-trans (mark_accepted-SameJobs msg (error_text pid) w.db db x) (
                  SameJobs-trans (capture-SameJobs msg (with_db w db))
                    (note_sms_id-SameJobs pid _))).attempts)

  pub accept_from_stat-Quiet :
      (msg : Uuid) (row : StatisticRow) (w : World)
      → Quiet w (accept_from_stat worker now job msg row w)
  unfolding accept_from_stat
  accept_from_stat-Quiet msg row w = on_applied (apply_statistic msg row noted.db) refl
    where
      noted : World
      noted = note_sms_id row.sms_id w

      on_marked :
          (applied : Db)
          → apply_statistic msg row noted.db ≡ ok applied
          → (r : Result Db) → mark_accepted msg (error_text row.sms_id) applied ≡ r
          → Quiet w (accept_from_stat worker now job msg row w)
      on_marked applied x (err e) y =
          rw (accept_from_stat, x, y)
            (park-Quiet send_uncertain job.attempt _ _ _
              ∙ (SameJobs-trans (note_sms_id-SameJobs row.sms_id w)
                  (apply_statistic-SameJobs msg row noted.db applied x)).attempts)
      on_marked applied x (ok db) y =
          rw (accept_from_stat, x, y)
            (complete-Quiet _
              ∙ (SameJobs-trans (note_sms_id-SameJobs row.sms_id w) (
                  SameJobs-trans (apply_statistic-SameJobs msg row noted.db applied x) (
                    SameJobs-trans (mark_accepted-SameJobs msg (error_text row.sms_id) applied db y)
                      (capture-SameJobs msg (with_db noted db))))).attempts)

      on_applied :
          (r : Result Db)
          → apply_statistic msg row noted.db ≡ r
          → Quiet w (accept_from_stat worker now job msg row w)
      on_applied (err e) x =
          rw (accept_from_stat, x)
            (park-Quiet send_uncertain job.attempt _ _ _
              ∙ (note_sms_id-SameJobs row.sms_id w).attempts)
      on_applied (ok applied) x =
          on_marked applied x (mark_accepted msg (error_text row.sms_id) applied) refl

  pub fail_dead-Quiet :
      (msg : Uuid) (attempt : ℕ) (reason : Text) (w : World)
      → Quiet w (fail_dead worker now decode job msg attempt reason w)
  unfolding fail_dead fail_message
  fail_dead-Quiet msg attempt reason w =
      on_park (park worker now job send_dead attempt reason 0 w)
        (park-Quiet send_dead attempt reason 0 w)
    where
      on_park :
          (r : Bool × World)
          → Quiet w r.1
          → Quiet w (if_parked worker now decode (fail_message worker now decode job msg reason) r)
      on_park (true, v) e =
          (SameJobs-trans (or_written-SameJobs v.db _) (release-SameJobs msg _)).attempts ∙ e
      on_park (false, v) e = e

  on_kind-Quiet :
      (kind : SendAttemptKind) (msg : Uuid) (attempt : ℕ) (text : Text) (w : World)
      → Quiet w (on_kind worker now decode kind job msg attempt text w)
  unfolding on_kind
  on_kind-Quiet rejected_4xx msg attempt text w = fail_dead-Quiet msg attempt text w
  on_kind-Quiet rate_limited msg attempt text w = park-Quiet _ attempt _ _ w
  on_kind-Quiet _ msg attempt text w = park-Quiet _ attempt _ _ w

  pub on_answer-Quiet :
      (answer : SendOutcome) (msg : Uuid) (w : World)
      → Quiet w (on_answer worker now decode answer job msg w)
  unfolding on_answer classify_error
  on_answer-Quiet (sent_as pid) msg w = accept-Quiet msg pid (job.attempt + 1) w
  on_answer-Quiet (send_failed e) msg w = elim (Bool-cases e.not_configured) [
    | inl unset ↦ rw (on_answer, unset) (park-Quiet _ _ _ _ w)
    | inr set ↦
        rw (on_answer, set) (on_kind-Quiet (classify_error e) msg (job.attempt + 1) e.message w)
  ]
