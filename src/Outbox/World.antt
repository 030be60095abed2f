-- ===== src/Outbox/World.antt =====
-- internal/outbox/worker.go: what the worker learns from outside, and how it reads it. The
-- provider's answers, the rate limiter's and the settings' come with each job as an `Outside`.
use sms.Prelude.{
  ℕ, ◌*◌, Bool, true, false, ◌&&◌, ◌||◌, not, Option, none, some, List, [], take, leb, ltb, ◌==◌,
  if◌then◌else◌,
}
use sms.Prelude.Text.{Text, codes, text_eq}
use sms.Store.Types.{
  SendAttemptKind, kind_accepted, rejected_4xx, rate_limited, kind_timeout, kind_5xx, SendJob, Db,
}
use sms.Store.Outbox.{need_stat}
use sms.Outbox.Match.{StatisticRow}

abbrev pub need_retry : Text
need_retry = codes "uncertain:need_retry"

abbrev pub max_uncertain_sends : ℕ
max_uncertain_sends = 2

-- Delays are milliseconds.
abbrev pub stale_processing : ℕ
stale_processing = 120_000

abbrev pub uncertain_pause : ℕ
uncertain_pause = 15_000

abbrev pub retry_after_stat : ℕ
retry_after_stat = 5_000

abbrev pub half_minute : ℕ
half_minute = 30_000

abbrev pub five_seconds : ℕ
five_seconds = 5_000

abbrev pub claim_batch : ℕ
claim_batch = 8

-- What the worker reads of an error of runexis: errors.Is(err, ErrNotConfigured), HTTPStatus,
-- IsTimeout, Error().
pub record SendError : Type 0 where
  pub not_configured : Bool
  pub http_status : ℕ
  pub is_timeout : Bool
  pub message : Text

pub data SendOutcome : Type 0 where
  sent_as : (provider_sms_id : Text) → SendOutcome
  send_failed : SendError → SendOutcome

-- What the limiter says: go on, wait so long, or an error.
pub data Rate : Type 0 where
  allowed : Rate
  limited : (retry : ℕ) → Rate
  limiter_error : Rate

pub data StatisticPage : Type 0 where
  page : List StatisticRow → StatisticPage
  statistic_not_configured statistic_error : StatisticPage

pub record Outside : Type 0 where
  pub settings_available : Bool
  pub has_limiter : Bool
  pub client_rate : Rate
  pub provider_rate : Rate
  pub has_adapter : Bool
  pub answer : SendOutcome
  pub answer_body : Option Text  -- the redacted body, or the error's text
  pub statistic : StatisticPage

-- The database, and the worker's own state: the provider ids that this tick has matched, and when it
-- last reconciled.
pub record World : Type 0 where
  pub db : Db
  pub stat_used : List Text
  pub last_rec : Option ℕ

unfoldable pub classify_error : SendError → SendAttemptKind
classify_error e =
    if e.http_status == 429
    then rate_limited
    else if leb 400 e.http_status && ltb e.http_status 500
    then rejected_4xx
    else if leb 500 e.http_status
    then kind_5xx
    else if e.is_timeout
    then kind_timeout
    else if e.http_status == 0
    then kind_timeout
    else kind_5xx

-- The kind and the HTTP status.
unfoldable pub classify : SendOutcome → SendAttemptKind × ℕ
classify (sent_as pid) = (kind_accepted, 200)
classify (send_failed e) = (classify_error e, e.http_status)

unfoldable pub backoff_429 : ℕ → ℕ
backoff_429 attempt =
    let d = (if ltb attempt 1 then 1 else attempt) * 2_000 in if ltb 60_000 d then 60_000 else d

abbrev pub deref : Option Text → Text
deref none = []
deref (some s) = s

unfoldable pub need_statistic : SendJob → Bool
need_statistic job =
    text_eq (deref job.last_error) need_stat || text_eq (deref job.last_error) need_retry

abbrev is_5xx : Option SendAttemptKind → Bool
is_5xx (some kind_5xx) = true
is_5xx _ = false

-- `none` is the empty kind: no attempt, or an error.
unfoldable pub allow_uncertain_retry : ℕ → Option SendAttemptKind → Bool
allow_uncertain_retry attempt kind = ltb attempt max_uncertain_sends && not (is_5xx kind)

abbrev body_truncate_runes : ℕ
body_truncate_runes = 2048

unfoldable pub truncate_runes : Text → Text
truncate_runes s = take body_truncate_runes s
