-- ===== src/Outbox/Closed.antt =====
-- internal/outbox/worker.go: a property of the worker's state that each single write keeps is kept by
-- all the work on a job.
use sms.Prelude.{
  ℕ, ◌+◌, ◌≡◌, refl, inl, inr, Bool, true, false, Option, some, none, List, ◌∷◌, Option-cases,
  if◌then◌else◌,
}
use sms.Prelude.Text.{Text}
use sms.Store.Types.{Uuid, SmsMessage, SendJobStatus, send_uncertain, SendJob, Db}
use sms.Store.Errors.{Err, Result, ok, err, no_rows, unique_violation}
use sms.Store.Outbox.{park_send_job, complete_send_job}
use sms.Billing.Sms.{or_same}
use sms.Outbox.Match.{StatisticRow, is_blank}
use sms.Outbox.World.{World, Outside}
use sms.Outbox.Parking.{park, complete, record_attempt, error_text}
use sms.Outbox.Accepting.{
  accept, mark_accepted, apply_statistic, note_sms_id, capture, release, written, tolerate,
  without_id, with_db,
}

-- A property that the single writes keep.
pub record Closed (P : World → Type 0) : Type 0 where
  pub jobs :
      (w : World) (js : List SendJob) → P w → P (record w { db = record (w.db) { send_jobs = js } })
  pub messages :
      (w : World) (ms : List SmsMessage)
      → P w
      → P (record w { db = record (w.db) { sms_messages = ms } })
  pub tried : (id : Uuid) (n : ℕ) (out : Outside) (w : World) → P w → P (record_attempt id n out w)
  pub noted : (w : World) (used : List Text) → P w → P (record w { stat_used = used })
  pub captured : (id : Uuid) (w : World) → P w → P (capture id w)
  pub released : (id : Uuid) (w : World) → P w → P (release id w)

-- A write on the messages that succeeded.
pub data Wrote (db db' : Db) : Type 0 where
  nothing : db' ≡ db → Wrote db db'
  rows : (ms : List SmsMessage) → db' ≡ record db { sms_messages = ms } → Wrote db db'

abbrev pub Writes : Db → Result Db → Type 0
Writes db r = (db' : Db) → r ≡ ok db' → Wrote db db'

ok_same : {a b : Db} → ◌≡◌ {A = Result Db} (ok a) (ok b) → b ≡ a
ok_same x = cc

err-ok : {e : Err} {b : Db} → ◌≡◌ {A = Result Db} (err e) (ok b) → ⊥
err-ok x = cc

pub written-Writes : (db : Db) (r : Result (List SmsMessage)) → Writes db (written db r)
written-Writes db (ok ms) db' e = rows ms (ok_same e)
written-Writes db (err x) db' e = absurd (err-ok e)

tolerate-Writes : (db : Db) (r : Result Db) → Writes db r → Writes db (tolerate db r)
tolerate-Writes db (ok d) k db' e = k db' e
tolerate-Writes db (err no_rows) k db' e = nothing (ok_same e)
tolerate-Writes db (err _) k db' e = k db' e

without_id-Writes :
    (db : Db) (pid : Option Text) (r again : Result Db)
    → Writes db r
    → Writes db again
    → Writes db (without_id pid r again)
without_id-Writes db none r again k l = k
without_id-Writes db (some pid) (ok d) again k l = k
without_id-Writes db (some pid) (err unique_violation) again k l = l
without_id-Writes db (some pid) (err _) again k l = k

pub mark_accepted-Writes :
    (id : Uuid) (pid : Option Text) (db : Db) → Writes db (mark_accepted id pid db)
unfolding mark_accepted
mark_accepted-Writes id pid db =
    without_id-Writes db pid _ _ (tolerate-Writes db _ (written-Writes db _))
      (tolerate-Writes db _ (written-Writes db _))

pub apply_statistic-Writes :
    (id : Uuid) (row : StatisticRow) (db : Db) → Writes db (apply_statistic id row db)
unfolding apply_statistic
apply_statistic-Writes id row db =
    without_id-Writes db _ _ _ (tolerate-Writes db _ (written-Writes db _))
      (tolerate-Writes db _ (written-Writes db _))

pub if_holds : (P : World → Type 0) (b : Bool) {x y : World} → P x → P y → P (if b then x else y)
if_holds P true p q = p
if_holds P false p q = q

module _ (P : World → Type 0) (c : Closed P) where
  pub wrote-Closed : (w : World) (db : Db) → Wrote w.db db → P w → P (with_db w db)
  wrote-Closed w db (nothing e) p = rw (e) p
  wrote-Closed w db (rows ms e) p = rw (e) (c.messages w ms p)

  pub or_same-Closed :
      (w : World) (r : Result Db) → Writes w.db r → P w → P (with_db w (or_same w.db r))
  or_same-Closed w (ok db) k p = wrote-Closed w db (k db refl) p
  or_same-Closed w (err e) k p = p

  pub note_sms_id-Closed : (id : Text) (w : World) → P w → P (note_sms_id id w)
  unfolding note_sms_id
  note_sms_id-Closed id w p = if_holds P (is_blank id) p (c.noted w (id ∷ w.stat_used) p)

  module _ (worker now : ℕ) (decode : Text → Option (Text × Text)) (job : SendJob) where
    pub park-Closed :
        (status : SendJobStatus) (attempt : ℕ) (why : Text) (delay : ℕ) (w : World)
        → P w
        → P (park worker now job status attempt why delay w).1
    unfolding park
    park-Closed status attempt why delay w p =
        elim (Option-cases (
          park_send_job status attempt (now + delay) (error_text why) job.id worker
            w.db.send_jobs)) [
              | inl missing ↦ rw (park, missing) p
              | inr (jobs, found) ↦ rw (park, found) (c.jobs w jobs p)
            ]

    pub complete-Closed : (w : World) → P w → P (complete worker now job w)
    unfolding complete
    complete-Closed w p = elim (Option-cases (complete_send_job job.id worker w.db.send_jobs)) [
      | inl missing ↦ rw (complete, missing) p
      | inr (jobs, found) ↦ rw (complete, found) (c.jobs w jobs p)
    ]

    pub accept-Closed :
        (msg : Uuid) (pid : Text) (attempt : ℕ) (w : World)
        → P w
        → P (accept worker now job msg pid attempt w)
    unfolding accept
    accept-Closed msg pid attempt w p = on_written (mark_accepted msg (error_text pid) w.db) refl
      where
        on_written :
            (r : Result Db)
            → mark_accepted msg (error_text pid) w.db ≡ r
            → P (accept worker now job msg pid attempt w)
        on_written (err e) x = rw (accept, x) (park-Closed send_uncertain attempt _ _ w p)
        on_written (ok db) x =
            rw (accept, x)
              (complete-Closed _ (
                note_sms_id-Closed pid _ (
                  c.captured msg _
                    (wrote-Closed w db (mark_accepted-Writes msg (error_text pid) w.db db x) p))))
