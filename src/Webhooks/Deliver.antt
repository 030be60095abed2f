-- ===== src/Webhooks/Deliver.antt =====
-- internal/webhooks/deliver.go: an event is queued for its endpoints, and what is due is delivered.
use sms.Prelude.{
  ℕ, suc, ◌+◌, Bool, true, false, ◌&&◌, not, Option, none, some, List, [], ◌∷◌, ltb, leb,
  if◌then◌else◌,
}
use sms.Prelude.Text.{Text}
use sms.Store.Types.{Uuid, Client, active}
use sms.Store.Rows.{get_client_by_id}
use sms.Webhooks.Schedule.{known_event, subscribes, next_attempt_at, auto_disable_after}
use sms.Webhooks.Tables.{
  hook_pending, hook_failed, hook_dead, WebhookDelivery, WebhookEndpoint, Hooks, is_open,
  claim_webhook_deliveries, mark_webhook_delivery_attempt, mark_webhook_delivery_delivered,
  get_webhook_endpoint, increment_webhook_endpoint_failures, reset_webhook_endpoint_failures,
  list_enabled_webhook_endpoints,
}

-- The settings' LookupWebhookMaxAttempts; `none` is no settings, or an error.
abbrev pub max_attempts_of : Option ℕ → ℕ
max_attempts_of none = 8
max_attempts_of (some n) = if ltb 0 n then n else 8

abbrev pub is_inactive : Option Client → Bool
is_inactive none = false
is_inactive (some c) = elim c.status [ active ↦ false | _ ↦ true ]

abbrev pub queued : Uuid → Text → ℕ → ℕ → WebhookEndpoint → Uuid → WebhookDelivery
queued client event_type max_attempts now ep id = record {
  id = id;
  client_id = client;
  endpoint_id = ep.id;
  event_type = event_type;
  status = hook_pending;
  attempt_count = 0;
  max_attempts = max_attempts;
  next_attempt = some now;
  last_response_code = none;
}

abbrev pub with_delivery : WebhookDelivery → Hooks → Hooks
with_delivery d h = record h { deliveries = d ∷ h.deliveries; next_id = suc h.next_id }

-- The loop over the endpoints; n is what was queued before.
unfoldable pub enqueue_all : Uuid → Text → ℕ → ℕ → List WebhookEndpoint → ℕ → Hooks → ℕ × Hooks
enqueue_all client event_type max_attempts now [] n h = (n, h)
enqueue_all client event_type max_attempts now (ep ∷ eps) n h =
    let (n', h') =
      (if subscribes ep.events event_type
        then (suc n, with_delivery (queued client event_type max_attempts now ep h.next_id) h)
        else (n, h)) in
    enqueue_all client event_type max_attempts now eps n' h'

unfoldable pub enqueue : Uuid → Text → Option ℕ → ℕ → Hooks → ℕ × Hooks
enqueue client event_type setting now h =
    if not (known_event event_type)
    then (0, h)
    else if is_inactive (get_client_by_id client h.clients)
    then (0, h)
    else enqueue_all client event_type (max_attempts_of setting) now
        (list_enabled_webhook_endpoints client h.endpoints) 0 h

-- What comes of a request: the secret cannot be decrypted; no answer; an answer with its status.
pub data Answer : Type 0 where
  undecryptable no_answer : Answer
  answered : (code : ℕ) → Answer

-- What a write on the deliveries leaves, and what is then written on the endpoints; an error ends the
-- delivery, and leaves both.
abbrev pub after_mark :
    Hooks → (List WebhookEndpoint → List WebhookEndpoint) → Option (List WebhookDelivery) → Hooks
after_mark h next none = h
after_mark h next (some ds) = record h { deliveries = ds; endpoints = next h.endpoints }

module _ (now : ℕ) where
  unfoldable pub fail_attempt : WebhookDelivery → WebhookEndpoint → ℕ → Hooks → Hooks
  fail_attempt d ep code h =
      let attempt = d.attempt_count + 1 in
      let dead = leb d.max_attempts attempt in
      after_mark h (increment_webhook_endpoint_failures auto_disable_after ep.id) (
        mark_webhook_delivery_attempt (if dead then hook_dead else hook_failed) attempt
          (if ltb 0 code then some code else none)
          (if dead then none else next_attempt_at attempt d.max_attempts now) d.id h.deliveries)

  unfoldable pub on_response : Answer → WebhookDelivery → WebhookEndpoint → Hooks → Hooks
  on_response undecryptable d ep h = h
  on_response no_answer d ep h = fail_attempt d ep 0 h
  on_response (answered code) d ep h =
      if leb 200 code && ltb code 300
      then after_mark h (reset_webhook_endpoint_failures ep.id)
          (mark_webhook_delivery_delivered (d.attempt_count + 1) (some code) d.id h.deliveries)
      else fail_attempt d ep code h

  -- The endpoint is missing, or disabled.
  unfoldable pub give_up : WebhookDelivery → Hooks → Hooks
  give_up d h =
      after_mark h (λ eps. eps)
        (mark_webhook_delivery_attempt hook_dead d.attempt_count none none d.id h.deliveries)

  unfoldable pub deliver_one : Answer → WebhookDelivery → Hooks → Hooks
  deliver_one answer d h =
      if not (is_open d.status) then h else elim (get_webhook_endpoint d.endpoint_id h.endpoints) [
        | none ↦ give_up d h
        | some ep ↦ if ep.enabled then on_response answer d ep h else give_up d h
      ]

  unfoldable pub deliver_all : (Uuid → Answer) → List WebhookDelivery → Hooks → Hooks
  deliver_all answer [] h = h
  deliver_all answer (d ∷ ds) h = deliver_all answer ds (deliver_one (answer d.id) d h)

  -- DeliverDue without its count.
  unfoldable pub deliver_due : (Uuid → Answer) → ℕ → Hooks → Hooks
  deliver_due answer limit h =
      let (rows, table) =
        claim_webhook_deliveries now (if ltb limit 1 then 10 else limit) h.clients h.deliveries in
      deliver_all answer rows (record h { deliveries = table })
