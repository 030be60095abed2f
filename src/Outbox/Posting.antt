-- ===== src/Outbox/Posting.antt =====
-- internal/outbox/worker.go: when process sends a request, which it records as an attempt.
use sms.Prelude.{
  ℕ, ◌+◌, ◌≡◌, refl, sym, ◌∙◌, ◌⊎◌, inl, inr, Bool, true, false, not, Option, some, none,
  Option-cases, if◌then◌else◌,
}
use sms.Prelude.Text.{Text, text_eq}
use sms.Store.Types.{Uuid, SmsMessage, SendJob}
use sms.Store.Outbox.{update_owned, touched, touch_send_job_lock}
use sms.Store.Rows.{get_sms_message_by_id}
use sms.Outbox.Match.{StatisticRow}
use sms.Outbox.World.{
  World, Outside, StatisticPage, page, statistic_not_configured, statistic_error, deref,
  need_statistic, need_retry, allow_uncertain_retry,
}
use sms.Outbox.Parking.{touch_lock, record_attempt, latest_attempt_kind, Refusal, refusal}
use sms.Outbox.Worker.{
  lookup_statistic, post, send, on_statistic, on_page, handle_uncertain, gone, process_message,
  process,
}
use sms.Outbox.Effects.{none-some, owned_none}
use sms.Outbox.Silence.{Quiet, park-Quiet, accept_from_stat-Quiet, fail_dead-Quiet, on_answer-Quiet}

-- The conditions under which a request may go out for a job in its held copy: the row is the worker's,
-- there is an adapter, nothing is refused; and where the job's last error is need_stat or need_retry,
-- it is need_retry, one attempt is counted at most, and the latest did not fail with a status of 500
-- or more.
pub record MaySend (worker : ℕ) (job : SendJob) (out : Outside) (w : World) : Type 0 where
  pub owned : update_owned (λ j. j) job.id worker w.db.send_jobs ≡ none → ⊥
  pub has_adapter : out.has_adapter ≡ true
  pub unrefused : refusal out job ≡ none
  pub sure :
      need_statistic job ≡ true
      → (text_eq (deref job.last_error) need_retry ≡ true)
        × (allow_uncertain_retry job.attempt (latest_attempt_kind job.id w) ≡ true)

-- No request, or one under the condition `G`, with its attempt recorded.
abbrev pub Posts : Type 0 → SendJob → Outside → World → World → Type 0
Posts G job out a b =
    Quiet a b
    ⊎ (G × (b.db.send_attempts ≡ (record_attempt job.id (job.attempt + 1) out a).db.send_attempts))

Posts-map :
    {G H : Type 0} (job : SendJob) (out : Outside) (a b : World)
    → (G → H)
    → Posts G job out a b
    → Posts H job out a b
Posts-map job out a b f (inl q) = inl q
Posts-map job out a b f (inr (g, e)) = inr (f g, e)

-- Either branch of a test.
if_both :
    (P : World → Type 0) (b : Bool) {x y : World}
    → (b ≡ true → P x)
    → (b ≡ false → P y)
    → P (if b then x else y)
if_both P true f g = f refl
if_both P false f g = g refl

not-false : (b : Bool) → not b ≡ false → b ≡ true
not-false true e = refl
not-false false e = sym e

module _ (worker now : ℕ) (decode : Text → Option (Text × Text)) (job : SendJob) where
  post-Posts :
      (refused : Refusal) (msg : Uuid) (out : Outside) (w : World)
      → Posts
          ((out.has_adapter ≡ true) × (refused ≡ none))
          job
          out
          w
          (post worker now decode refused job msg out w)
  unfolding post
  post-Posts (some (reason, delay)) msg out w = inl (park-Quiet worker now decode job _ _ _ _ w)
  post-Posts none msg out w =
      if_both (Posts ((out.has_adapter ≡ true) × (◌≡◌ {A = Refusal} none none)) job out w)
        (not out.has_adapter) (λ without. inl (park-Quiet worker now decode job _ _ _ _ w))
        (λ has. inr (
          (not-false out.has_adapter has, refl),
          on_answer-Quiet worker now decode job out.answer msg
              (record_attempt job.id (job.attempt + 1) out w),
        ))

  send-Posts :
      (msg : Uuid) (out : Outside) (w : World)
      → Posts
          ((update_owned (λ j. j) job.id worker w.db.send_jobs ≡ none → ⊥)
            × (out.has_adapter ≡ true)
            × (refusal out job ≡ none))
          job
          out
          w
          (send worker now decode job msg out w)
  unfolding send touch_lock touch_send_job_lock record_attempt
  send-Posts msg out w =
      elim (Option-cases (touch_send_job_lock now job.id worker w.db.send_jobs)) [
        | inl missing ↦ rw (send, touch_lock, missing) (inl refl)
        | inr (jobs, found) ↦
            rw (send, touch_lock, found)
              (Posts-map job out (record w { db = record (w.db) { send_jobs = jobs } })
                (post worker now decode (refusal out job) job msg out
                  (record w { db = record (w.db) { send_jobs = jobs } }))
                (λ h. (
                  λ lost. none-some (
                      sym (owned_none (λ j. j) (touched now) job.id worker w.db.send_jobs lost)
                      ∙ found),
                  h.0,
                  h.1,
                ))
                (post-Posts (refusal out job) msg out
                  (record w { db = record (w.db) { send_jobs = jobs } })))
      ]

  on_statistic-Posts :
      (found : Option StatisticRow) (msg : Uuid) (out : Outside) (w : World)
      → Posts
          (MaySend worker job out w)
          job
          out
          w
          (on_statistic worker now decode found job msg out w)
  unfolding on_statistic
  on_statistic-Posts (some row) msg out w =
      inl (accept_from_stat-Quiet worker now decode job msg row w)
  on_statistic-Posts none msg out w =
      if_both P (not (allow_uncertain_retry job.attempt (latest_attempt_kind job.id w)))
        (λ used_up. inl (fail_dead-Quiet worker now decode job msg job.attempt _ w))
        (λ may.
          if_both P (text_eq (deref job.last_error) need_retry)
            (λ again.
              Posts-map job out w (send worker now decode job msg out w)
                (λ h. record {
                  owned = h.0;
                  has_adapter = h.1;
                  unrefused = h.2;
                  sure = λ n. (again, not-false _ may);
                })
                (send-Posts msg out w))
            (λ first. inl (park-Quiet worker now decode job _ _ _ _ w)))
    where
      P : World → Type 0
      P = Posts (MaySend worker job out w) job out w

  on_page-Posts :
      (r : StatisticPage × Option StatisticRow) (msg : Uuid) (out : Outside) (w : World)
      → Posts (MaySend worker job out w) job out w (on_page worker now decode r job msg out w)
  unfolding on_page
  on_page-Posts (page rows, found) msg out w = on_statistic-Posts found msg out w
  on_page-Posts (statistic_not_configured, found) msg out w =
      inl (park-Quiet worker now decode job _ _ _ _ w)
  on_page-Posts (statistic_error, found) msg out w =
      inl (park-Quiet worker now decode job _ _ _ _ w)

  process_message-Posts :
      (msg : SmsMessage) (out : Outside) (w : World)
      → Posts (MaySend worker job out w) job out w (process_message worker now decode job msg out w)
  unfolding process_message handle_uncertain
  process_message-Posts msg out w =
      if_both P (gone worker now decode job.client_id w.db)
        (λ left. inl (park-Quiet worker now decode job _ _ _ _ w))
        (λ there.
          if_both P (need_statistic job)
            (λ unsure. on_page-Posts (lookup_statistic msg out w) msg.id out w)
            (λ fresh.
              Posts-map job out w (send worker now decode job msg.id out w)
                (λ h. record {
                  owned = h.0;
                  has_adapter = h.1;
                  unrefused = h.2;
                  sure = λ n. absurd (conflict n fresh);
                })
                (send-Posts msg.id out w)))
    where
      P : World → Type 0
      P = Posts (MaySend worker job out w) job out w

      conflict : {b : Bool} → b ≡ true → b ≡ false → ⊥
      conflict x y = cc

  -- Work on a job makes no request, or exactly one, which is recorded as an attempt of the job; and
  -- it makes one only for a row that the worker still owns, with an adapter and nothing refused; and
  -- where the job's last error is need_stat or need_retry, only if it is need_retry, less than two
  -- attempts are counted, and the latest recorded attempt failed with no status of 500 or more.
  pub process-Posts :
      (out : Outside) (w : World)
      → Posts (MaySend worker job out w) job out w (process worker now decode job out w)
  unfolding process
  process-Posts out w =
      elim (Option-cases (get_sms_message_by_id job.sms_message_id w.db.sms_messages)) [
        | inl missing ↦ rw (process, missing) (inl (park-Quiet worker now decode job _ _ _ _ w))
        | inr (msg, found) ↦ rw (process, found) (process_message-Posts msg out w)
      ]
