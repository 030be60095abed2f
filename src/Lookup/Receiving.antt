-- ===== src/Lookup/Receiving.antt =====
-- internal/http/smsc/handler.go, internal/smsc/provider.go, internal/lookup/persist.go: a callback
-- that the provider sends is stored, and applied at once when it is signed.
use sms.Prelude.{ℕ, Bool, true, false, none, some, List, if◌then◌else◌}
use sms.Prelude.Text.{Text, codes}
use sms.Store.Types.{Uuid}
use sms.Store.Errors.{ok, err}
use sms.Lookup.Apply.{NormalizedResult}
use sms.Lookup.Callbacks.{
  ProviderLookupCallback, ProviderLookupRequest, RawPayload, insert_provider_lookup_callback,
  get_provider_lookup_callback_by_dedupe,
}
use sms.Lookup.World.{LookupWorld, Setup, str_ptr}
use sms.Lookup.Incoming.{IncomingCallback, IncomingResult, callback_phone_digits, apply_incoming}
use sms.Lookup.Stored.{no_call, should_conclude_callback, conclude_callback}
use sms.Lookup.Enrich.{no_result}

-- What VerifyCallbackSignature finds: `unknown` where no secret is configured.
pub data Signature : Type 0 where
  valid invalid unknown : Signature

-- A callback that passes the limiter and the checks of its size: `new_id` is what gen_random_uuid
-- gives, `normalized` what MapResponse makes of it, `payload_id` its "id" and `dedupe_key` the key of
-- its fields.
pub record CallbackRequest : Type 0 where
  pub new_id : Uuid
  pub payload_id : Text
  pub raw_payload : RawPayload
  pub normalized : NormalizedResult
  pub dedupe_key : Text
  pub signature : Signature

-- The row before the signature is looked at.
abbrev pub received : ℕ → CallbackRequest → ProviderLookupCallback
received now request = record {
  id = request.new_id;
  client_id = none;
  job_item_id = none;
  provider_code = codes "smsc";
  provider_message_id = str_ptr request.payload_id;
  raw_payload = some request.raw_payload;
  normalized_result = no_result;
  dedupe_key = str_ptr request.dedupe_key;
  signature_valid = none;
  processed_at = none;
  process_error = none;
  created_at = now;
}

-- The row that HandleCallback stores.
abbrev pub callback_row : Signature → ℕ → CallbackRequest → ProviderLookupCallback
callback_row valid now request = record (received now request) {
  provider_message_id = str_ptr request.normalized.provider_message_id;
  normalized_result = request.normalized;
  signature_valid = some true;
}
callback_row invalid now request = record (received now request) {
  signature_valid = some false;
  process_error = some (codes "Invalid callback signature");
}
callback_row unknown now request = record (received now request) {
  process_error = some (codes "SMSC callback secret is not configured");
}

-- The id of the row that has the key of a refused one, 0 where there is none.
abbrev pub existing_id : Text → List ProviderLookupCallback → Uuid
existing_id key cs = elim (get_provider_lookup_callback_by_dedupe (codes "smsc") key cs) [
  | none ↦ 0
  | some c ↦ c.id
]

-- SaveCallback: the id of the row, or of the one that has its key.
unfoldable pub save_callback :
    Text → ProviderLookupCallback → List ProviderLookupCallback → Uuid × List ProviderLookupCallback
save_callback key row cs = elim (insert_provider_lookup_callback row cs) [
  | ok rows ↦ (row.id, rows)
  | err e ↦ (existing_id key cs, cs)
]

abbrev pub incoming_of : CallbackRequest → IncomingCallback
incoming_of request = record {
  provider_message_id = request.normalized.provider_message_id;
  phone_digits = callback_phone_digits request.normalized.phone_e164;
  normalized = request.normalized;
  skip_enrich = true;
}

unfoldable pub conclude_if_done : ℕ → Uuid → IncomingResult × LookupWorld → LookupWorld
conclude_if_done now id (res, w) =
    if should_conclude_callback res then conclude_callback now id res w else w

abbrev pub is_valid : Signature → Bool
is_valid valid = true
is_valid _ = false

unfoldable pub receive_callback :
    Setup → ℕ → List ProviderLookupRequest → CallbackRequest → LookupWorld → LookupWorld
receive_callback setup now requests request w =
    let (id, rows) =
      save_callback request.dedupe_key (callback_row request.signature now request) w.callbacks in
    let stored = record w { callbacks = rows } in
    if is_valid request.signature
    then conclude_if_done now id
        (apply_incoming setup now no_call requests (incoming_of request) stored)
    else stored
