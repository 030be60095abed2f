-- ===== src/Outbox/Endings.antt =====
-- internal/outbox/worker.go: every way through process ends the work on its job.
use sms.Prelude.{ℕ, ◌≡◌, refl, List}
use sms.Prelude.Text.{Text}
use sms.Store.Types.{Uuid, send_uncertain, SendJob, Db}
use sms.Store.Errors.{Result, ok, err}
use sms.Outbox.Match.{StatisticRow}
use sms.Outbox.World.{World}
use sms.Outbox.Parking.{park, complete, error_text}
use sms.Outbox.Accepting.{
  accept, accept_from_stat, mark_accepted, apply_statistic, note_sms_id, with_db,
}
use sms.Outbox.Untouched.{
  SameJobs, SameJobs-refl, SameJobs-trans, mark_accepted-SameJobs, apply_statistic-SameJobs,
  capture-SameJobs, note_sms_id-db,
}
use sms.Outbox.Effects.{Ends, park-Ends, complete-Ends}

-- Of the tables of two worlds.
abbrev pub Ended : ℕ → SendJob → World → World → Type 0
Ended worker job w w' = Ends worker job.id w.db.send_jobs w'.db.send_jobs

pub after_same :
    (worker : ℕ) (id : Uuid) (a b : Db) {js' : List SendJob}
    → SameJobs a b
    → Ends worker id b.send_jobs js'
    → Ends worker id a.send_jobs js'
after_same worker id a b s e = rw (s.jobs) at e

pub note_sms_id-SameJobs : (id : Text) (w : World) → SameJobs w.db (note_sms_id id w).db
note_sms_id-SameJobs id w = rw (note_sms_id-db id w) (SameJobs-refl w.db)

module _ (worker now : ℕ) (job : SendJob) (msg : Uuid) where
  -- The way on from a write on a message: to another world, or to a park.
  complete_after :
      (a b : World) → SameJobs a.db b.db → Ended worker job a (complete worker now job b)
  complete_after a b s = after_same worker job.id a.db b.db s (complete-Ends worker now job b)

  parked_uncertain :
      (attempt delay : ℕ) (why : Text) (a b : World)
      → SameJobs a.db b.db
      → Ended worker job a (park worker now job send_uncertain attempt why delay b).1
  parked_uncertain attempt delay why a b s =
      after_same worker job.id a.db b.db s
        (park-Ends worker now job send_uncertain attempt why delay b refl)

  pub accept-Ends :
      (pid : Text) (attempt : ℕ) (w : World)
      → Ended worker job w (accept worker now job msg pid attempt w)
  unfolding accept
  accept-Ends pid attempt w = on_written (mark_accepted msg (error_text pid) w.db) refl
    where
      on_written :
          (r : Result Db)
          → mark_accepted msg (error_text pid) w.db ≡ r
          → Ended worker job w (accept worker now job msg pid attempt w)
      on_written (err e) x =
          rw (accept, x) (park-Ends worker now job send_uncertain attempt _ _ w refl)
      on_written (ok db) x =
          rw (accept, x)
            (complete_after w _ (
              SameJobs-trans (mark_accepted-SameJobs msg (error_text pid) w.db db x) (
                SameJobs-trans (capture-SameJobs msg (with_db w db)) (note_sms_id-SameJobs pid _))))

  pub accept_from_stat-Ends :
      (row : StatisticRow) (w : World)
      → Ended worker job w (accept_from_stat worker now job msg row w)
  unfolding accept_from_stat
  accept_from_stat-Ends row w = on_applied (apply_statistic msg row noted.db) refl
    where
      noted : World
      noted = note_sms_id row.sms_id w

      on_marked :
          (applied : Db)
          → apply_statistic msg row noted.db ≡ ok applied
          → (r : Result Db) → mark_accepted msg (error_text row.sms_id) applied ≡ r
          → Ended worker job w (accept_from_stat worker now job msg row w)
      on_marked applied x (err e) y =
          rw (accept_from_stat, x, y)
            (parked_uncertain job.attempt _ _ w _ (
              SameJobs-trans (note_sms_id-SameJobs row.sms_id w)
                (apply_statistic-SameJobs msg row noted.db applied x)))
      on_marked applied x (ok db) y =
          rw (accept_from_stat, x, y)
            (complete_after w _ (
              SameJobs-trans (note_sms_id-SameJobs row.sms_id w) (
                SameJobs-trans (apply_statistic-SameJobs msg row noted.db applied x) (
                  SameJobs-trans (mark_accepted-SameJobs msg (error_text row.sms_id) applied db y)
                    (capture-SameJobs msg (with_db noted db))))))

      on_applied :
          (r : Result Db)
          → apply_statistic msg row noted.db ≡ r
          → Ended worker job w (accept_from_stat worker now job msg row w)
      on_applied (err e) x =
          rw (accept_from_stat, x)
            (parked_uncertain job.attempt _ _ w _ (note_sms_id-SameJobs row.sms_id w))
      on_applied (ok applied) x =
          on_marked applied x (mark_accepted msg (error_text row.sms_id) applied) refl
