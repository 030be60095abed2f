-- ===== src/Webhooks/Tables.antt =====
-- internal/db/sqlc/webhooks.sql.go and models.go: endpoints, deliveries, and the statements on them.
use sms.Prelude.{
  ℕ, ◌+◌, Bool, true, false, ◌&&◌, ◌||◌, Option, none, some, List, [], ◌∷◌, map, any, take,
  find_first, filter_by, ltb, leb, ◌==◌, if◌then◌else◌,
}
use sms.Prelude.Text.{Text}
use sms.Store.Types.{Uuid, Client}
use sms.Store.Rows.{get_client_by_id}
use sms.Store.Outbox.{is_active}

pub data WebhookDeliveryStatus : Type 0 where
  hook_pending hook_delivered hook_failed hook_dead : WebhookDeliveryStatus

pub record WebhookDelivery : Type 0 where
  pub id : Uuid
  pub client_id : Uuid
  pub endpoint_id : Uuid
  pub event_type : Text
  pub status : WebhookDeliveryStatus
  pub attempt_count : ℕ
  pub max_attempts : ℕ
  pub next_attempt : Option ℕ
  pub last_response_code : Option ℕ

pub record WebhookEndpoint : Type 0 where
  pub id : Uuid
  pub client_id : Uuid
  pub enabled : Bool
  pub events : List Text
  pub consecutive_failures : ℕ

-- The tables; next_id is what uuid.New gives next.
pub record Hooks : Type 0 where
  pub clients : List Client
  pub endpoints : List WebhookEndpoint
  pub deliveries : List WebhookDelivery
  pub next_id : Uuid

-- status IN ('pending', 'failed')
abbrev pub is_open : WebhookDeliveryStatus → Bool
is_open hook_pending = true
is_open hook_failed = true
is_open _ = false

abbrev pub comes_due : ℕ → Option ℕ → Bool
comes_due now none = false
comes_due now (some at) = leb at now

unfoldable pub is_deliverable : ℕ → List Client → WebhookDelivery → Bool
is_deliverable now clients d =
    is_open d.status
    && comes_due now d.next_attempt
    && is_active (get_client_by_id d.client_id clients)

-- next_attempt_at, id; both are there.
abbrev pub comes_before : WebhookDelivery → WebhookDelivery → Bool
comes_before a b = elim a.next_attempt [
  | none ↦ true
  | some x ↦ elim b.next_attempt [ none ↦ true | some y ↦ ltb x y || (x == y && leb a.id b.id) ]
]

unfoldable pub insert_ordered : WebhookDelivery → List WebhookDelivery → List WebhookDelivery
insert_ordered d [] = d ∷ []
insert_ordered d (e ∷ es) = if comes_before d e then d ∷ e ∷ es else e ∷ insert_ordered d es

unfoldable pub ordered : List WebhookDelivery → List WebhookDelivery
ordered [] = []
ordered (d ∷ ds) = insert_ordered d (ordered ds)

abbrev pub is_picked : List WebhookDelivery → WebhookDelivery → Bool
is_picked picks d = any (λ (p : WebhookDelivery). p.id == d.id) picks

abbrev pub put_off : ℕ → WebhookDelivery → WebhookDelivery
put_off now d = record d { next_attempt = some (now + 120_000) }

abbrev pub put_off_if : ℕ → List WebhookDelivery → WebhookDelivery → WebhookDelivery
put_off_if now picks d = if is_picked picks d then put_off now d else d

-- The rows that RETURNING gives, and the table.
unfoldable pub claim_webhook_deliveries :
    ℕ → ℕ → List Client → List WebhookDelivery → List WebhookDelivery × List WebhookDelivery
claim_webhook_deliveries now limit clients ds =
    let picks = take limit (ordered (filter_by (is_deliverable now clients) ds)) in
    let table = map (put_off_if now picks) ds in (filter_by (is_picked picks) table, table)

abbrev pub with_id : Uuid → (WebhookDelivery → WebhookDelivery) → WebhookDelivery → WebhookDelivery
with_id id set d = if d.id == id then set d else d

abbrev pub attempted :
    WebhookDeliveryStatus → ℕ → Option ℕ → Option ℕ → WebhookDelivery → WebhookDelivery
attempted status attempt code next d = record d {
  status = status;
  attempt_count = attempt;
  last_response_code = code;
  next_attempt = next;
}

-- UPDATE … WHERE id = …; `none` is no row.
abbrev pub update_delivery :
    Uuid
    → (WebhookDelivery → WebhookDelivery)
    → List WebhookDelivery
    → Option (List WebhookDelivery)
update_delivery id set ds =
    if any (λ (d : WebhookDelivery). d.id == id) ds then some (map (with_id id set) ds) else none

unfoldable pub mark_webhook_delivery_attempt :
    WebhookDeliveryStatus
    → ℕ
    → Option ℕ
    → Option ℕ
    → Uuid
    → List WebhookDelivery
    → Option (List WebhookDelivery)
mark_webhook_delivery_attempt status attempt code next id =
    update_delivery id (attempted status attempt code next)

abbrev pub arrived : ℕ → Option ℕ → WebhookDelivery → WebhookDelivery
arrived attempt code d = record d {
  status = hook_delivered;
  attempt_count = attempt;
  last_response_code = code;
  next_attempt = none;
}

unfoldable pub mark_webhook_delivery_delivered :
    ℕ → Option ℕ → Uuid → List WebhookDelivery → Option (List WebhookDelivery)
mark_webhook_delivery_delivered attempt code id = update_delivery id (arrived attempt code)

unfoldable pub get_webhook_endpoint : Uuid → List WebhookEndpoint → Option WebhookEndpoint
get_webhook_endpoint id = find_first (λ (e : WebhookEndpoint). e.id == id)

abbrev pub failed_once : ℕ → Uuid → WebhookEndpoint → WebhookEndpoint
failed_once disable_after id e =
    if e.id == id
    then record e {
      consecutive_failures = e.consecutive_failures + 1;
      enabled = if leb disable_after (e.consecutive_failures + 1) then false else e.enabled;
    }
    else e

unfoldable pub increment_webhook_endpoint_failures :
    ℕ → Uuid → List WebhookEndpoint → List WebhookEndpoint
increment_webhook_endpoint_failures disable_after id = map (failed_once disable_after id)

abbrev pub reset : Uuid → WebhookEndpoint → WebhookEndpoint
reset id e = if e.id == id then record e { consecutive_failures = 0 } else e

unfoldable pub reset_webhook_endpoint_failures : Uuid → List WebhookEndpoint → List WebhookEndpoint
reset_webhook_endpoint_failures id = map (reset id)

unfoldable pub list_enabled_webhook_endpoints : Uuid → List WebhookEndpoint → List WebhookEndpoint
list_enabled_webhook_endpoints client =
    filter_by (λ (e : WebhookEndpoint). e.client_id == client && e.enabled)
