-- ===== src/Outbox/Caution.antt =====
-- internal/outbox/worker.go: what becomes of a job whose request may have arrived.
use sms.Prelude.{
  ℕ, ◌+◌, ◌≡◌, refl, ◌⊎◌, inl, inr, Bool, true, false, ◌||◌, Option, some, none, List, arith,
  Option-cases,
}
use sms.Prelude.Text.{Text}
use sms.Store.Types.{Uuid, send_uncertain, SendJob, SendAttemptKind, rejected_4xx, rate_limited, Db}
use sms.Store.Errors.{Result, ok, err}
use sms.Store.Outbox.{update_owned, parked, completed, park_send_job, complete_send_job, need_stat}
use sms.Outbox.World.{World, SendOutcome, sent_as, send_failed, classify_error, uncertain_pause}
use sms.Outbox.Parking.{park, complete, error_text}
use sms.Outbox.Accepting.{accept, mark_accepted, with_db}
use sms.Outbox.Worker.{on_answer, on_kind}
use sms.Outbox.Untouched.{SameJobs, SameJobs-trans, mark_accepted-SameJobs, capture-SameJobs}
use sms.Outbox.Endings.{note_sms_id-SameJobs}
use sms.Outbox.Effects.{owned_none}

-- An answer after which the message is known not to be on its way.
abbrev pub is_refusal : SendAttemptKind → Bool
is_refusal rejected_4xx = true
is_refusal rate_limited = true
is_refusal _ = false

abbrev pub is_definite : SendOutcome → Bool
is_definite (sent_as pid) = false
is_definite (send_failed e) = e.not_configured || is_refusal (classify_error e)

-- The row is done, or it waits for the provider's statistic with the attempt counted, or the worker
-- has lost it and no row is written.
abbrev pub Cautious : ℕ → ℕ → SendJob → List SendJob → List SendJob → Type 0
Cautious worker now job js js' =
    ((update_owned (λ j. j) job.id worker js ≡ none) × (js' ≡ js))
    ⊎ (update_owned completed job.id worker js ≡ some js')
    ⊎ (update_owned
          (parked send_uncertain (job.attempt + 1) (now + uncertain_pause) (some need_stat)) job.id
          worker js
        ≡ some js')

module _ (worker now : ℕ) (job : SendJob) where
  uncertain-Cautious :
      (w : World)
      → Cautious worker now job w.db.send_jobs
          (park worker now job send_uncertain
            (job.attempt + 1)
            need_stat
            uncertain_pause
            w).1.db.send_jobs
  unfolding park park_send_job
  uncertain-Cautious w =
      elim (Option-cases (
        park_send_job send_uncertain (job.attempt + 1) (now + uncertain_pause)
          (error_text need_stat) job.id worker w.db.send_jobs)) [
            | inl missing ↦
                rw (park, missing) (inl (owned_none _ (λ j. j) job.id worker _ missing, refl))
            | inr (jobs, found) ↦ rw (park, found) (inr (inr refl))
          ]

  complete-Cautious :
      (a : Db) (w : World)
      → SameJobs a w.db
      → Cautious worker now job a.send_jobs (complete worker now job w).db.send_jobs
  unfolding complete complete_send_job
  complete-Cautious a w same =
      of_same a.send_jobs w.db.send_jobs same.jobs
        (elim (Option-cases (complete_send_job job.id worker w.db.send_jobs))
          as (λ x.
            Cautious worker now job w.db.send_jobs (complete worker now job w).db.send_jobs) [
              | inl missing ↦
                  rw (complete, missing) (inl (owned_none _ (λ j. j) job.id worker _ missing, refl))
              | inr (jobs, found) ↦ rw (complete, found) (inr (inl refl))
            ])
    where
      of_same :
          (js ks : List SendJob) {ls : List SendJob}
          → ks ≡ js
          → Cautious worker now job ks ls
          → Cautious worker now job js ls
      of_same js ks e c = rw (e) at c

  accept-Cautious :
      (msg : Uuid) (pid : Text) (w : World)
      → Cautious worker now job w.db.send_jobs
          (accept worker now job msg pid (job.attempt + 1) w).db.send_jobs
  unfolding accept
  accept-Cautious msg pid w = on_written (mark_accepted msg (error_text pid) w.db) refl
    where
      on_written :
          (r : Result Db)
          → mark_accepted msg (error_text pid) w.db ≡ r
          → Cautious worker now job w.db.send_jobs
              (accept worker now job msg pid (job.attempt + 1) w).db.send_jobs
      on_written (err e) x = rw (accept, x) (uncertain-Cautious w)
      on_written (ok db) x =
          rw (accept, x)
            (complete-Cautious w.db _ (
              SameJobs-trans (mark_accepted-SameJobs msg (error_text pid) w.db db x) (
                SameJobs-trans (capture-SameJobs msg (with_db w db)) (note_sms_id-SameJobs pid _))))

  on_kind-Cautious :
      (decode : Text → Option (Text × Text)) (kind : SendAttemptKind) (msg : Uuid) (text : Text)
      (w : World)
      → is_refusal kind ≡ false
      → Cautious worker now job w.db.send_jobs
          (on_kind worker now decode kind job msg (job.attempt + 1) text w).db.send_jobs
  unfolding on_kind
  on_kind-Cautious decode rejected_4xx msg text w u = absurd (conflict u)
    where
      conflict : ◌≡◌ {A = Bool} true false → ⊥
      conflict x = cc
  on_kind-Cautious decode rate_limited msg text w u = absurd (conflict u)
    where
      conflict : ◌≡◌ {A = Bool} true false → ⊥
      conflict x = cc
  on_kind-Cautious decode _ msg text w u = uncertain-Cautious w

  -- After an answer that leaves it open whether the message is on its way (accepted, no status, a
  -- timeout, a status below 400 or of 500 and more), the job is done, or it is parked uncertain with
  -- need_stat and one attempt more, and no other row is written; it is never left to be sent again
  -- without a look at the statistic.
  pub on_answer-Cautious :
      (decode : Text → Option (Text × Text)) (answer : SendOutcome) (msg : Uuid) (w : World)
      → is_definite answer ≡ false
      → Cautious worker now job w.db.send_jobs
          (on_answer worker now decode answer job msg w).db.send_jobs
  unfolding on_answer classify_error
  on_answer-Cautious decode (sent_as pid) msg w u = accept-Cautious msg pid w
  on_answer-Cautious decode (send_failed e) msg w u =
      rw (on_answer, left_false e.not_configured (is_refusal (classify_error e)) u)
        (on_kind-Cautious decode (classify_error e) msg e.message w
          (right_false e.not_configured (is_refusal (classify_error e)) u))
    where
      left_false : (b c : Bool) → (b || c) ≡ false → b ≡ false
      left_false b c x = ground arith

      right_false : (b c : Bool) → (b || c) ≡ false → c ≡ false
      right_false b c x = ground arith
