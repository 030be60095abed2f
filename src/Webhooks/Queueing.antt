-- ===== src/Webhooks/Queueing.antt =====
-- internal/webhooks/deliver.go, enqueue: an event is queued for the endpoints that want it.
use sms.Prelude.{
  ℕ, zero, suc, ◌<◌, ◌≡◌, refl, ◌⊎◌, inl, inr, true, not, Option, none, some, List, [], ◌∷◌, In,
  at_head, in_tail, in_cons, arith, Bool-cases,
}
use sms.Prelude.Text.{Text}
use sms.Store.Types.{Uuid}
use sms.Store.Rows.{get_client_by_id}
use sms.Webhooks.Schedule.{subscribes, known_event}
use sms.Webhooks.Tables.{WebhookDelivery, WebhookEndpoint, Hooks, list_enabled_webhook_endpoints}
use sms.Webhooks.Deliver.{queued, with_delivery, enqueue_all, enqueue, max_attempts_of, is_inactive}
use sms.Webhooks.Sound.{SoundDelivery, Unique, Sound}

positive : (setting : Option ℕ) → 0 < max_attempts_of setting
positive none = omega arith
positive (some zero) = omega arith
positive (some (suc n)) = ground arith

-- The new row.
queued-Sound :
    (client : Uuid) (event_type : Text) (max now : ℕ) (ep : WebhookEndpoint) (h : Hooks)
    → 0 < max
    → Sound h
    → Sound (with_delivery (queued client event_type max now ep h.next_id) h)
queued-Sound client event_type max now ep h p s = record {
  deliveries = λ d i. in_cons SoundDelivery new (λ j. s.deliveries d j) i;
  endpoints = s.endpoints;
  unique = λ a b i j e. unique_with a b i j e;
  fresh =
      λ d i. in_cons (λ q. q.id < suc h.next_id) (omega arith) (λ j. omega (arith, s.fresh d j)) i;
}
  where
    new : SoundDelivery (queued client event_type max now ep h.next_id)
    new = record { within = omega arith; more = λ o. p; timed = refl }

    unique_with : Unique (queued client event_type max now ep h.next_id ∷ h.deliveries)
    unique_with a b at_head at_head e = refl
    unique_with a b at_head (in_tail j) e = absurd (omega (arith, s.fresh b j, e))
    unique_with a b (in_tail i) at_head e = absurd (omega (arith, s.fresh a i, e))
    unique_with a b (in_tail i) (in_tail j) e = s.unique a b i j e

-- A delivery of an event for an endpoint among some.
pub record IsFor (client : Uuid) (event_type : Text) (eps : List WebhookEndpoint)
    (d : WebhookDelivery) : Type 0 where
  pub endpoint : WebhookEndpoint
  pub among : In endpoint eps
  pub wants : subscribes endpoint.events event_type ≡ true
  pub of_endpoint : d.endpoint_id ≡ endpoint.id
  pub of_client : d.client_id ≡ client
  pub of_event : d.event_type ≡ event_type

-- What queueing leaves: the invariant, and rows that were there or are for one of the endpoints.
pub record Queues (client : Uuid) (event_type : Text) (eps : List WebhookEndpoint) (h h' : Hooks)
    : Type 0 where
  pub sound : Sound h'
  pub rows :
      (d : WebhookDelivery) → In d h'.deliveries → In d h.deliveries ⊎ IsFor client event_type eps d

further :
    (client : Uuid) (event_type : Text) (ep : WebhookEndpoint) (eps : List WebhookEndpoint)
    (d : WebhookDelivery)
    → IsFor client event_type eps d
    → IsFor client event_type (ep ∷ eps) d
further client event_type ep eps d x = record {
  endpoint = x.endpoint;
  among = in_tail x.among;
  wants = x.wants;
  of_endpoint = x.of_endpoint;
  of_client = x.of_client;
  of_event = x.of_event;
}

module _ (client : Uuid) (event_type : Text) (max now : ℕ) (p : 0 < max) where
  enqueue_all-Queues :
      (eps : List WebhookEndpoint) (n : ℕ) (h : Hooks)
      → Sound h
      → Queues client event_type eps h (enqueue_all client event_type max now eps n h).1
  unfolding enqueue_all
  enqueue_all-Queues [] n h s = record { sound = s; rows = λ d i. inl i }
  enqueue_all-Queues (ep ∷ eps) n h s = elim (Bool-cases (subscribes ep.events event_type)) [
    | inr not_wanted ↦ rw (enqueue_all, not_wanted) (skipped (enqueue_all-Queues eps n h s))
    | inl wanted ↦
        rw (enqueue_all, wanted)
          (added wanted (
            enqueue_all-Queues eps (suc n)
              (with_delivery (queued client event_type max now ep h.next_id) h)
              (queued-Sound client event_type max now ep h p s)))
  ]
    where
      skipped :
          {h' : Hooks}
          → Queues client event_type eps h h'
          → Queues client event_type (ep ∷ eps) h h'
      skipped q = record {
        sound = q.sound;
        rows = λ d i. elim (q.rows d i) [
          | inl old ↦ inl old
          | inr new ↦ inr (further client event_type ep eps d new)
        ];
      }

      added :
          {h' : Hooks}
          → subscribes ep.events event_type ≡ true
          → Queues client event_type eps
              (with_delivery (queued client event_type max now ep h.next_id) h)
              h'
          → Queues client event_type (ep ∷ eps) h h'
      added wanted q = record {
        sound = q.sound;
        rows = λ d i. elim (q.rows d i) [
          | inl old ↦
              in_cons (λ a. In a h.deliveries ⊎ IsFor client event_type (ep ∷ eps) a)
                (inr (record {
                  endpoint = ep;
                  among = at_head;
                  wants = wanted;
                  of_endpoint = refl;
                  of_client = refl;
                  of_event = refl;
                }))
                (λ j. inl j) old
          | inr new ↦ inr (further client event_type ep eps d new)
        ];
      }

-- Queueing an event keeps the invariant of deliveries, and what it adds are rows of that event and
-- client, each for an endpoint of the client that is enabled and subscribes to the event.
pub enqueue-Queues :
    (client : Uuid) (event_type : Text) (setting : Option ℕ) (now : ℕ) (h : Hooks)
    → Sound h
    → Queues client event_type
        (list_enabled_webhook_endpoints client h.endpoints)
        h
        (enqueue client event_type setting now h).1
unfolding enqueue
enqueue-Queues client event_type setting now h s =
    elim (Bool-cases (not (known_event event_type))) [
      | inl unknown ↦ rw (enqueue, unknown) unchanged
      | inr known ↦ elim (Bool-cases (is_inactive (get_client_by_id client h.clients))) [
        | inl inactive ↦ rw (enqueue, known, inactive) unchanged
        | inr serves ↦
            rw (enqueue, known, serves)
              (enqueue_all-Queues client event_type (max_attempts_of setting) now (positive setting)
                (list_enabled_webhook_endpoints client h.endpoints) 0 h s)
      ]
    ]
  where
    unchanged : Queues client event_type (list_enabled_webhook_endpoints client h.endpoints) h h
    unchanged = record { sound = s; rows = λ d i. inl i }
