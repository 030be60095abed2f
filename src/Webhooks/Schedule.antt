-- ===== src/Webhooks/Schedule.antt =====
-- internal/webhooks/backoff.go, events.go: when a delivery is tried again, and who wants an event.
use sms.Prelude.{
  ℕ, zero, suc, ◌+◌, ◌-◌, ◌*◌, ◌≤◌, Bool, ◌||◌, Option, none, some, List, [], ◌∷◌, any, arith, ltb,
  leb, if◌then◌else◌,
}
use sms.Prelude.Text.{Text, codes, text_eq}

-- 1<<n
abbrev doubled : ℕ → ℕ
doubled zero = 1
doubled (suc n) = 2 * doubled n

abbrev exponent : ℕ → ℕ
exponent attempt_count =
    let exp = (if ltb attempt_count 1 then 1 else attempt_count) - 1 in if ltb 8 exp then 8 else exp

-- In milliseconds.
unfoldable pub retry_delay : ℕ → ℕ
retry_delay attempt_count = 30_000 * doubled (exponent attempt_count)

unfoldable pub next_attempt_at : ℕ → ℕ → ℕ → Option ℕ
next_attempt_at attempt_count max_attempts now =
    if leb max_attempts attempt_count then none else some (now + retry_delay attempt_count)

abbrev pub event_check_completed : Text
event_check_completed = codes "check.completed"

abbrev pub event_check_failed : Text
event_check_failed = codes "check.failed"

abbrev pub event_job_completed : Text
event_job_completed = codes "job.completed"

abbrev pub auto_disable_after : ℕ
auto_disable_after = 20

unfoldable pub known_event : Text → Bool
known_event v =
    text_eq v event_check_completed || text_eq v event_check_failed || text_eq v event_job_completed

-- The status is "completed", or not.
unfoldable pub event_for_item_status : Text → Text
event_for_item_status status =
    if text_eq status (codes "completed") then event_check_completed else event_check_failed

unfoldable pub subscribes : List Text → Text → Bool
subscribes [] event_type = known_event event_type
subscribes (e ∷ events) event_type = any (λ d. text_eq d event_type) (e ∷ events)

doubled_le : (a b : ℕ) → a ≤ b → doubled a ≤ doubled b
doubled_le zero zero l = omega arith
doubled_le zero (suc b) l = omega (arith, doubled_le zero b (omega arith))
doubled_le (suc a) zero l = absurd (omega (arith, l))
doubled_le (suc a) (suc b) l = omega (arith, doubled_le a b (omega (arith, l)))

exponent_le : (m n : ℕ) → m ≤ n → exponent m ≤ exponent n
exponent_le m n l = ground arith

exponent_most : (n : ℕ) → exponent n ≤ 8
exponent_most n = ground arith

half_minutes_le : (a b : ℕ) → a ≤ b → 30_000 * a ≤ 30_000 * b
half_minutes_le a b l = omega (arith, l)

-- A delay is at least half a minute and at most 7680 seconds, and it does not get shorter with the
-- attempts.
pub retry_delay-lem :
    (m n : ℕ)
    → m ≤ n
    → (retry_delay m ≤ retry_delay n) × (30_000 ≤ retry_delay m) × (retry_delay n ≤ 7_680_000)
unfolding retry_delay
retry_delay-lem m n l = (
  half_minutes_le (doubled (exponent m)) (doubled (exponent n))
      (doubled_le (exponent m) (exponent n) (exponent_le m n l)),
  half_minutes_le 1 (doubled (exponent m)) (doubled_le 0 (exponent m) (omega arith)),
  half_minutes_le (doubled (exponent n)) 256 (doubled_le (exponent n) 8 (exponent_most n)),
)
