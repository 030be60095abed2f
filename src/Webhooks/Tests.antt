-- ===== src/Webhooks/Tests.antt =====
-- Two endpoints of a client, one about to be disabled, and their deliveries.
use sms.Prelude.{◌<◌, ◌≡◌, refl, true, none, some, [], ◌∷◌, In, at_head, in_tail, arith}
use sms.Prelude.Text.{codes, text_eq, trim_space}
use sms.Store.Types.{active}
use sms.Store.Errors.{ok}
use sms.Webhooks.Schedule.{event_job_completed, known_event}
use sms.Webhooks.Tables.{
  hook_failed, WebhookDelivery, WebhookEndpoint, Hooks, list_enabled_webhook_endpoints,
}
use sms.Webhooks.Deliver.{answered, deliver_due, enqueue}
use sms.Webhooks.Manage.{
  Request, patching, manage, patch, update_webhook_endpoint, normalize_events, normalize_from,
}
use sms.Webhooks.Sound.{SoundDelivery, SoundEndpoint, Unique, Sound}
use sms.Webhooks.Rounds.{deliver_due-Sound}
use sms.Webhooks.Queueing.{Queues, enqueue-Queues}
use sms.Webhooks.Managing.{Rested, restarts, manage-Sound}

abbrev tired : WebhookEndpoint
tired = record { id = 3; client_id = 7; enabled = true; events = []; consecutive_failures = 19 }

abbrev waiting : WebhookDelivery
waiting = record {
  id = 60;
  client_id = 7;
  endpoint_id = 3;
  event_type = event_job_completed;
  status = hook_failed;
  attempt_count = 7;
  max_attempts = 8;
  next_attempt = some 100;
  last_response_code = none;
}

abbrev hooks : Hooks
hooks = record {
  clients = record { id = 7; status = active } ∷ [];
  endpoints = tired ∷ [];
  deliveries = waiting ∷ [];
  next_id = 61;
}

hooks-Sound : Sound hooks
hooks-Sound = record {
  deliveries = λ d i. delivery i;
  endpoints = λ e i. endpoint i;
  unique = one_row;
  fresh = λ d i. id_of i;
}
  where
    delivery : {d : WebhookDelivery} → In d (waiting ∷ []) → SoundDelivery d
    delivery at_head = record { within = omega arith; more = λ o. omega arith; timed = refl }
    delivery (in_tail i) = elim i [ ]

    endpoint : {e : WebhookEndpoint} → In e (tired ∷ []) → SoundEndpoint e
    endpoint at_head = λ o. omega arith
    endpoint (in_tail i) = elim i [ ]

    one_row : Unique (waiting ∷ [])
    one_row a b at_head at_head e = refl
    one_row a b (in_tail i) j e = elim i [ ]
    one_row a b at_head (in_tail j) e = elim j [ ]

    id_of : {d : WebhookDelivery} → In d (waiting ∷ []) → d.id < 61
    id_of at_head = omega arith
    id_of (in_tail i) = elim i [ ]

deliver_due-Sound_example : Sound (deliver_due 200 (λ id. answered 500) 0 hooks)
deliver_due-Sound_example = deliver_due-Sound 200 (λ id. answered 500) 0 hooks hooks-Sound

enqueue-Queues_example :
    Queues 7 event_job_completed
      (list_enabled_webhook_endpoints 7 hooks.endpoints)
      hooks
      (enqueue 7 event_job_completed none 200 hooks).1
enqueue-Queues_example = enqueue-Queues 7 event_job_completed none 200 hooks hooks-Sound

abbrev enabling : Request
enabling = patching 7 3 true none (some true)

abbrev rested : Hooks
rested = record hooks { endpoints = record tired { consecutive_failures = 0 } ∷ [] }

enabled_again : manage enabling hooks ≡ ok rested
unfolding manage patch update_webhook_endpoint
enabled_again = refl

manage-Sound_example : Sound rested × Rested (restarts enabling) rested.endpoints
manage-Sound_example = manage-Sound enabling hooks hooks-Sound enabled_again

two_events :
    normalize_events (codes "job.completed" ∷ codes " check.failed" ∷ codes "job.completed" ∷ [])
    ≡ some (codes "job.completed" ∷ codes "check.failed" ∷ [])
unfolding normalize_events normalize_from known_event trim_space text_eq
two_events = refl
