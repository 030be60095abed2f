-- ===== src/Webhooks/Manage.antt =====
-- internal/webhooks/service.go: the management of a client's endpoints, without their secrets, URLs and
-- descriptions.
use sms.Prelude.{
  ℕ, suc, Bool, true, false, ◌&&◌, not, Option, none, some, List, [], ◌∷◌, map, any, length,
  filter_by, leb, ◌==◌, if◌then◌else◌,
}
use mathlib.Core.Option
use sms.Prelude.Text.{Text, text_eq, trim_space}
use sms.Store.Types.{Uuid}
use sms.Store.Errors.{Result, ok, err, validation, no_rows}
use sms.Webhooks.Schedule.{known_event}
use sms.Webhooks.Tables.{WebhookDelivery, WebhookEndpoint, Hooks}

abbrev pub max_endpoints_per_client : ℕ
max_endpoints_per_client = 20

-- The loop; `seen` is newest first, and `none` is an unknown event.
unfoldable pub normalize_from : List Text → List Text → Option (List Text)
normalize_from seen [] = some []
normalize_from seen (raw ∷ events) =
    let e = trim_space raw in
    let skipped = normalize_from seen events in
    let kept = normalize_from (e ∷ seen) events in
    if not (known_event e)
    then none
    else if any (λ d. text_eq d e) seen
    then skipped
    else elim kept [ none ↦ none | some rest ↦ some (e ∷ rest) ]

unfoldable pub normalize_events : List Text → Option (List Text)
normalize_events events = normalize_from [] events

-- COUNT of the client's endpoints.
unfoldable pub count_webhook_endpoints_for_client : Uuid → List WebhookEndpoint → ℕ
count_webhook_endpoints_for_client client es =
    length (filter_by (λ (e : WebhookEndpoint). e.client_id == client) es)

abbrev pub is_of : Uuid → Uuid → WebhookEndpoint → Bool
is_of client id e = e.id == id && e.client_id == client

abbrev pub or_enabled : Option Bool → Bool
or_enabled none = true
or_enabled (some b) = b

abbrev pub with_endpoint : Uuid → Option Bool → List Text → Hooks → Hooks
with_endpoint client enabled events h = record h {
  endpoints =
      record {
        id = h.next_id;
        client_id = client;
        enabled = or_enabled enabled;
        events = events;
        consecutive_failures = 0;
      }
      ∷ h.endpoints;
  next_id = suc h.next_id;
}

-- `is_url` is what url.Parse says of the trimmed URL; the secret can be made.
unfoldable pub create : Uuid → Bool → List Text → Option Bool → Hooks → Result Hooks
create client is_url events enabled h =
    if not is_url then err validation else elim (normalize_events events) [
      | none ↦ err validation
      | some wanted ↦
          if leb max_endpoints_per_client (count_webhook_endpoints_for_client client h.endpoints)
          then err validation
          else ok (with_endpoint client enabled wanted h)
    ]

abbrev pub coalesce_bool : Option Bool → Bool → Bool
coalesce_bool none old = old
coalesce_bool (some new) old = new

abbrev pub coalesce_events : Option (List Text) → List Text → List Text
coalesce_events none old = old
coalesce_events (some new) old = new

-- Enabling an endpoint forgets its failures.
abbrev pub forgives : Option Bool → Bool
forgives (some true) = true
forgives _ = false

abbrev pub updated : Option (List Text) → Option Bool → Bool → WebhookEndpoint → WebhookEndpoint
updated events enabled forget e = record e {
  events = coalesce_events events e.events;
  enabled = coalesce_bool enabled e.enabled;
  consecutive_failures = if forget then 0 else e.consecutive_failures;
}

abbrev pub updated_if :
    Uuid → Uuid → Option (List Text) → Option Bool → Bool → WebhookEndpoint → WebhookEndpoint
updated_if client id events enabled forget e =
    if is_of client id e then updated events enabled forget e else e

-- UPDATE … WHERE id = … AND client_id = …; `no_rows` is what ErrNoRows is turned into.
unfoldable pub update_webhook_endpoint :
    Uuid → Uuid → Option (List Text) → Option Bool → Bool → Hooks → Result Hooks
update_webhook_endpoint client id events enabled forget h =
    if any (is_of client id) h.endpoints
    then ok (record h { endpoints = map (updated_if client id events enabled forget) h.endpoints })
    else err no_rows

-- Events that are not given stay as they are.
abbrev pub normalize_given : Option (List Text) → Option (Option (List Text))
normalize_given none = some none
normalize_given (some events) = Option.map (λ wanted. some wanted) (normalize_events events)

-- `is_url`: no URL is given, or it is one.
unfoldable pub patch : Uuid → Uuid → Bool → Option (List Text) → Option Bool → Hooks → Result Hooks
patch client id is_url events enabled h =
    if not (any (is_of client id) h.endpoints)
    then err no_rows
    else if not is_url
    then err validation
    else elim (normalize_given events) [
      | none ↦ err validation
      | some wanted ↦ update_webhook_endpoint client id wanted enabled (forgives enabled) h
    ]

unfoldable pub rotate_secret : Uuid → Uuid → Hooks → Result Hooks
rotate_secret client id h = update_webhook_endpoint client id none none true h

-- The deliveries of an endpoint go with it: ON DELETE CASCADE.
unfoldable pub delete : Uuid → Uuid → Hooks → Result Hooks
delete client id h =
    if any (is_of client id) h.endpoints
    then ok (record h {
      endpoints = filter_by (λ e. not (is_of client id e)) h.endpoints;
      deliveries = filter_by (λ (d : WebhookDelivery). not (d.endpoint_id == id)) h.deliveries;
    })
    else err no_rows

pub data Request : Type 0 where
  creating : (client : Uuid) (is_url : Bool) (events : List Text) (enabled : Option Bool) → Request
  patching :
      (client id : Uuid) (is_url : Bool) (events : Option (List Text)) (enabled : Option Bool)
      → Request
  rotating deleting : (client id : Uuid) → Request

-- The methods of Service that write endpoints.
unfoldable pub manage : Request → Hooks → Result Hooks
manage (creating client is_url events enabled) h = create client is_url events enabled h
manage (patching client id is_url events enabled) h = patch client id is_url events enabled h
manage (rotating client id) h = rotate_secret client id h
manage (deleting client id) h = delete client id h
