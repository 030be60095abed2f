-- ===== src/Outbox/Parking.antt =====
-- internal/outbox/worker.go: what the worker writes on its jobs, where it still owns them.
use sms.Prelude.{ℕ, ◌+◌, Bool, true, false, not, Option, none, some, ◌∷◌, ltb, if◌then◌else◌}
use mathlib.Core.Option
use sms.Prelude.Text.{Text, codes}
use sms.Store.Types.{Uuid, SendJobStatus, SendJob, SendAttemptKind, ProviderSendAttempt}
use sms.Store.Outbox.{
  park_send_job, complete_send_job, touch_send_job_lock, get_latest_send_attempt,
}
use sms.Outbox.Match.{is_blank}
use sms.Outbox.World.{
  World, Outside, Rate, allowed, limited, limiter_error, five_seconds, classify, truncate_runes,
}

abbrev pub error_text : Text → Option Text
error_text s = if is_blank s then none else some s

-- The worker `worker` at the time `now`; the result says whether the job was its own.
module _ (worker now : ℕ) where
  unfoldable pub park : SendJob → SendJobStatus → ℕ → Text → ℕ → World → Bool × World
  park job status attempt last_error delay w =
      elim (park_send_job status attempt (now + delay) (error_text last_error) job.id worker
        w.db.send_jobs) [
          | none ↦ (false, w)
          | some jobs ↦ (true, record w { db = record (w.db) { send_jobs = jobs } })
        ]

  unfoldable pub complete : SendJob → World → World
  complete job w = elim (complete_send_job job.id worker w.db.send_jobs) [
    | none ↦ w
    | some jobs ↦ record w { db = record (w.db) { send_jobs = jobs } }
  ]

  -- `none` is not owned.
  unfoldable pub touch_lock : SendJob → World → Option World
  touch_lock job w = elim (touch_send_job_lock now job.id worker w.db.send_jobs) [
    | none ↦ none
    | some jobs ↦ some (record w { db = record (w.db) { send_jobs = jobs } })
  ]

unfoldable pub record_attempt : Uuid → ℕ → Outside → World → World
record_attempt job attempt out w = record w {
  db = record (w.db) {
    send_attempts =
        record {
          send_job_id = job;
          attempt = attempt;
          http_status =
              (let status = (classify out.answer).1 in if ltb 0 status then some status else none);
          response_body = Option.map truncate_runes out.answer_body;
          error_kind = (classify out.answer).0;
        }
        ∷ w.db.send_attempts;
  };
}

unfoldable pub latest_attempt_kind : Uuid → World → Option SendAttemptKind
latest_attempt_kind job w =
    Option.map (λ (a : ProviderSendAttempt). a.error_kind)
      (get_latest_send_attempt job w.db.send_attempts)

-- A refusal of allowSend: the reason, and how long to wait.
abbrev pub Refusal : Type 0
Refusal = Option (Text × ℕ)

unfoldable pub refused_rate : Text → Rate → Refusal
refused_rate name allowed = none
refused_rate name (limited retry) = some (name, retry)
refused_rate name limiter_error = some (codes "rate limiter unavailable", five_seconds)

abbrev first_refusal : Refusal → Refusal → Refusal
first_refusal none second = second
first_refusal (some r) second = some r

abbrev of_client : Option Uuid → Rate → Refusal
of_client none rate = none
of_client (some client) rate = refused_rate (codes "client_rps") rate

-- allowSend, with the parking left to the caller: `none` is true.
unfoldable pub refusal : Outside → SendJob → Refusal
refusal out job =
    if not out.settings_available
    then some (codes "settings unavailable", five_seconds)
    else if not out.has_limiter
    then none
    else first_refusal (of_client job.client_id out.client_rate)
        (refused_rate (codes "provider_rps") out.provider_rate)
