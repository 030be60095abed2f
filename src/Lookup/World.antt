-- ===== src/Lookup/World.antt =====
-- internal/lookup/worker.go: the worker's state, what the world around it answers, and the small
-- functions on both.
use sms.Prelude.{
  ℕ, zero, suc, ◌+◌, ◌-◌, ◌*◌, Bool, true, false, ◌&&◌, not, Option, none, some, List, min, ◌⊎◌,
  ltb, leb, if◌then◌else◌,
}
use sms.Prelude.Text.{Text}
use sms.Store.Types.{Uuid, is_deleted, LookupItem, Db}
use sms.Store.Rows.{get_client_by_id}
use sms.Webhooks.Tables.{Hooks}
use sms.Lookup.Callbacks.{ProviderLookupCallback}
use sms.Lookup.Apply.{NormalizedResult, ItemResult, is_blank}

abbrev pub poll_max_attempts : ℕ
poll_max_attempts = 120

abbrev pub submit_batch_size : ℕ
submit_batch_size = 50

abbrev pub fair_clients : ℕ
fair_clients = 8

abbrev pub enrich_max_attempts : ℕ
enrich_max_attempts = 3

-- The database, with the tables of the stored callbacks and of the webhooks.
pub record LookupWorld : Type 0 where
  pub db : Db
  pub callbacks : List ProviderLookupCallback
  pub hooks : Hooks

-- An error of a call to the provider with its message: the context's, a smsc.Error with its code
-- (ProviderErrorCode as a string, or its kind), or another.
pub data IoError : Type 0 where
  context_over : (message : Text) → IoError
  smsc_error : (retryable : Bool) (code message : Text) → IoError
  other_error : (message : Text) → IoError

-- smsc.SubmitResult, as far as the worker reads it.
pub record SubmitResult : Type 0 where
  pub provider_code : Text
  pub provider_message_id : Text
  pub normalized : NormalizedResult

-- What an item meets when its turn comes: is there time to start a call, does the limiter refuse,
-- and the answers of the provider. `can_enrich` and `in_time_after` are canStartLookupIO before the
-- call of an enrichment and after it.
pub record Outside : Type 0 where
  pub in_time : Bool
  pub is_limited : Bool
  pub submitted : IoError ⊎ SubmitResult
  pub fetched : IoError ⊎ NormalizedResult
  pub can_enrich : Bool
  pub in_time_after : Bool
  pub enriched : IoError ⊎ NormalizedResult

-- The settings that the worker reads.
pub record View : Type 0 where
  pub lookup_enabled : Bool
  pub check_timeout_sec : ℕ
  pub poll_interval_sec : ℕ

-- The provider is there and configured; the setting of the webhooks' attempts.
pub record Setup : Type 0 where
  pub has_provider : Bool
  pub max_attempts : Option ℕ

unfoldable pub is_retryable_lookup_io : IoError → Bool
is_retryable_lookup_io (context_over message) = true
is_retryable_lookup_io (smsc_error retryable code message) = retryable
is_retryable_lookup_io (other_error message) = false

-- smsc.AsError(err) == nil
abbrev pub is_foreign : IoError → Bool
is_foreign (smsc_error retryable code message) = false
is_foreign _ = true

abbrev pub failure_code : Text → IoError → Text
failure_code otherwise (smsc_error retryable code message) = code
failure_code otherwise _ = otherwise

abbrev pub failure_message : IoError → Text
failure_message (context_over message) = message
failure_message (smsc_error retryable code message) = message
failure_message (other_error message) = message

unfoldable pub can_start_lookup_io : ℕ → Option ℕ → Bool
can_start_lookup_io now none = true
can_start_lookup_io now (some deadline) = leb (now + 20) deadline

abbrev pub power : ℕ → ℕ
power zero = 1
power (suc n) = 2 * power n

-- In milliseconds.
unfoldable pub backoff : ℕ → ℕ → ℕ
backoff base_sec attempt =
    (if ltb base_sec 1 then 30 else base_sec) * power (min (attempt - 1) 6) * 1000

unfoldable pub bump_enrich_attempt : Bool → Bool → Bool
bump_enrich_attempt invoked_provider budget_expired =
    if budget_expired && not invoked_provider then false else true

-- strPtr
abbrev pub str_ptr : Text → Option Text
str_ptr s = if is_blank s then none else some s

-- err == nil && cl.Status == deleted
abbrev pub client_is_deleted : Uuid → Db → Bool
client_is_deleted client db = elim (get_client_by_id client db.clients) [
  | none ↦ false
  | some c ↦ is_deleted c.status
]

-- The columns that hold an item's result.
abbrev pub item_result : LookupItem → ItemResult
item_result i = record {
  provider_message_id = i.provider_message_id;
  phone_e164 = i.phone_e164;
  result_status = i.result_status;
  is_reachable = i.is_reachable;
  imsi = i.imsi;
  mcc = i.mcc;
  mnc = i.mnc;
  operator_name = i.operator_name;
  country_code = i.country_code;
  ported = i.ported;
  roaming = i.roaming;
  error_code = i.error_code;
  extras = i.extras;
}
