-- ===== src/Outbox/Effects.antt =====
-- How work on a job ends in the table of jobs: the row that the worker owns is parked or completed,
-- and no other row is touched; or the worker has lost it, and nothing changes.
use sms.Prelude.{
  ℕ, ◌+◌, ◌≡◌, refl, sym, ◌∙◌, inl, inr, Bool, true, false, ◌&&◌, Option, some, none, List, [], ◌∷◌,
  Bool-cases, Option-cases, ◌==◌,
}
use sms.Prelude.Text.{Text}
use sms.Store.Types.{Uuid, SendJobStatus, send_done, send_retry, send_uncertain, send_dead, SendJob}
use sms.Store.Outbox.{
  update_owned, owned_by, parked, completed, touched, park_send_job, complete_send_job,
  touch_send_job_lock,
}
use sms.Outbox.World.{World}
use sms.Outbox.Parking.{park, complete, error_text}

-- A status in which a worker leaves a job.
abbrev pub is_left : SendJobStatus → Bool
is_left send_done = true
is_left send_retry = true
is_left send_uncertain = true
is_left send_dead = true
is_left _ = false

-- A write that ends the work on a row and keeps its key.
pub record Leaves (set : SendJob → SendJob) : Type 0 where
  pub id_kept : (j : SendJob) → (set j).id ≡ j.id
  pub message_kept : (j : SendJob) → (set j).sms_message_id ≡ j.sms_message_id
  pub left : (j : SendJob) → is_left (set j).status ≡ true

pub data Ends (worker : ℕ) (id : Uuid) (js js' : List SendJob) : Type 0 where
  lost : update_owned (λ j. j) id worker js ≡ none → js' ≡ js → Ends worker id js js'
  ended :
      (set : SendJob → SendJob)
      → Leaves set
      → update_owned set id worker js ≡ some js'
      → Ends worker id js js'

-- Whether a row is owned does not depend on what is written.
pub owned_none :
    (set set' : SendJob → SendJob) (id : Uuid) (worker : ℕ) (js : List SendJob)
    → update_owned set id worker js ≡ none
    → update_owned set' id worker js ≡ none
unfolding update_owned
owned_none set set' id worker [] e = refl
owned_none set set' id worker (j ∷ js) e = elim (Bool-cases (j.id == id && owned_by worker j)) [
  | inl here ↦ absurd (some_none (rw (update_owned, here) at e))
  | inr there ↦ elim (Option-cases (update_owned set id worker js)) [
    | inl missing ↦ rw (update_owned, there, owned_none set set' id worker js missing) refl
    | inr (rest, found) ↦ absurd (some_none (rw (update_owned, there, found) at e))
  ]
]
  where
    some_none : {l : List SendJob} → ◌≡◌ {A = Option (List SendJob)} (some l) none → ⊥
    some_none x = cc

pub some_same : {a b : List SendJob} → ◌≡◌ {A = Option (List SendJob)} (some a) (some b) → a ≡ b
some_same x = cc

pub none-some : {b : List SendJob} → ◌≡◌ {A = Option (List SendJob)} none (some b) → ⊥
none-some x = cc

-- A write after a touch is a write on the row as it was.
after_touched :
    (now : ℕ) (set : SendJob → SendJob) (id : Uuid) (worker : ℕ) (js js1 : List SendJob)
    → update_owned (touched now) id worker js ≡ some js1
    → update_owned (λ j. set (touched now j)) id worker js ≡ update_owned set id worker js1
unfolding update_owned
after_touched now set id worker [] js1 e = absurd (none-some e)
after_touched now set id worker (j ∷ js) js1 e =
    elim (Bool-cases (j.id == id && owned_by worker j)) [
      | inl here ↦ rw (sym (some_same (rw (update_owned, here) at e)), update_owned, here) refl
      | inr there ↦ elim (Option-cases (update_owned (touched now) id worker js)) [
        | inl missing ↦ absurd (none-some (rw (update_owned, there, missing) at e))
        | inr (rest, found) ↦
            rw
              (
                sym (some_same (rw (update_owned, there, found) at e)),
                update_owned,
                there,
                after_touched now set id worker js rest found,
              )
              refl
      ]
    ]

pub Ends-touched :
    (now worker : ℕ) (id : Uuid) (js js1 : List SendJob) {js' : List SendJob}
    → touch_send_job_lock now id worker js ≡ some js1
    → Ends worker id js1 js'
    → Ends worker id js js'
unfolding touch_send_job_lock
Ends-touched now worker id js js1 e (lost x same) =
    absurd (none-some (sym x ∙ sym (after_touched now (λ j. j) id worker js js1 e) ∙ e))
Ends-touched now worker id js js1 e (ended set leaves x) =
    ended (λ j. set (touched now j))
      (record {
        id_kept = λ j. leaves.id_kept (touched now j);
        message_kept = λ j. leaves.message_kept (touched now j);
        left = λ j. leaves.left (touched now j);
      })
      (after_touched now set id worker js js1 e ∙ x)

module _ (worker now : ℕ) (job : SendJob) where
  pub park-Ends :
      (status : SendJobStatus) (attempt : ℕ) (last_error : Text) (delay : ℕ) (w : World)
      → is_left status ≡ true
      → Ends worker job.id w.db.send_jobs
          (park worker now job status attempt last_error delay w).1.db.send_jobs
  unfolding park park_send_job
  park-Ends status attempt last_error delay w l =
      elim (Option-cases (
        park_send_job status attempt (now + delay) (error_text last_error) job.id worker
          w.db.send_jobs)) [
            | inl missing ↦
                rw (park, missing) (lost (owned_none _ (λ j. j) job.id worker _ missing) refl)
            | inr (jobs, found) ↦
                rw (park, found)
                  (ended (parked status attempt (now + delay) (error_text last_error))
                    (record { id_kept = λ j. refl; message_kept = λ j. refl; left = λ j. l }) found)
          ]

  pub complete-Ends :
      (w : World) → Ends worker job.id w.db.send_jobs (complete worker now job w).db.send_jobs
  unfolding complete complete_send_job
  complete-Ends w = elim (Option-cases (complete_send_job job.id worker w.db.send_jobs)) [
    | inl missing ↦
        rw (complete, missing) (lost (owned_none _ (λ j. j) job.id worker _ missing) refl)
    | inr (jobs, found) ↦
        rw (complete, found)
          (ended completed
            (record { id_kept = λ j. refl; message_kept = λ j. refl; left = λ j. refl }) found)
  ]
