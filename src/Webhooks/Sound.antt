-- ===== src/Webhooks/Sound.antt =====
-- internal/webhooks: the invariant of the deliveries and the endpoints, and how the writes keep it.
use sms.Prelude.{
  ℕ, ◌+◌, ◌≤◌, ◌<◌, ◌≡◌, sym, ◌∙◌, ap, inl, inr, Bool, true, false, Option, none, some, List, map,
  In, In-map, arith, leb, Bool-cases, ◌==◌,
}
use sms.Store.Types.{Uuid}
use sms.Webhooks.Schedule.{auto_disable_after}
use sms.Webhooks.Tables.{
  WebhookDelivery, WebhookEndpoint, Hooks, is_open, failed_once, reset,
  increment_webhook_endpoint_failures, reset_webhook_endpoint_failures,
}

abbrev pub is_some : Option ℕ → Bool
is_some none = false
is_some (some x) = true

-- No more attempts than are allowed; one is left while the delivery is open; and a time for the next
-- is set exactly while it is open.
pub record SoundDelivery (d : WebhookDelivery) : Type 0 where
  pub within : d.attempt_count ≤ d.max_attempts
  pub more : is_open d.status ≡ true → d.attempt_count < d.max_attempts
  pub timed : is_some d.next_attempt ≡ is_open d.status

-- An endpoint that fails too often in a row is disabled.
abbrev pub SoundEndpoint : WebhookEndpoint → Type 0
SoundEndpoint e = e.enabled ≡ true → e.consecutive_failures < auto_disable_after

-- The primary key: rows with one id are one row.
abbrev pub Unique : List WebhookDelivery → Type 0
Unique ds = (a b : WebhookDelivery) → In a ds → In b ds → a.id ≡ b.id → a ≡ b

pub record Sound (h : Hooks) : Type 0 where
  pub deliveries : (d : WebhookDelivery) → In d h.deliveries → SoundDelivery d
  pub endpoints : (e : WebhookEndpoint) → In e h.endpoints → SoundEndpoint e
  pub unique : Unique h.deliveries
  pub fresh : (d : WebhookDelivery) → In d h.deliveries → d.id < h.next_id

-- A write that keeps the key and the number of attempts allowed.
pub record Keeps (g : WebhookDelivery → WebhookDelivery) : Type 0 where
  pub same_id : (d : WebhookDelivery) → (g d).id ≡ d.id
  pub same_max : (d : WebhookDelivery) → (g d).max_attempts ≡ d.max_attempts

pub map-Sound :
    (g : WebhookDelivery → WebhookDelivery) (es : List WebhookEndpoint) (h : Hooks)
    → Sound h
    → Keeps g
    → ((d : WebhookDelivery) → In d h.deliveries → SoundDelivery (g d))
    → ((e : WebhookEndpoint) → In e es → SoundEndpoint e)
    → Sound (record h { deliveries = map g h.deliveries; endpoints = es })
map-Sound g es h s k each ends = record {
  deliveries = λ d i. let r = In-map g h.deliveries i in rw (r.2) (each r.0 r.1);
  endpoints = ends;
  unique = λ a b i j e.
      let r = In-map g h.deliveries i in
      let q = In-map g h.deliveries j in
      r.2
      ∙ ap g (
          s.unique r.0 q.0 r.1 q.1 (
            sym (k.same_id r.0)
            ∙ ap (λ (d : WebhookDelivery). d.id) (sym r.2)
            ∙ e
            ∙ ap (λ (d : WebhookDelivery). d.id) q.2
            ∙ k.same_id q.0))
      ∙ sym q.2;
  fresh = λ d i. let r = In-map g h.deliveries i in rw (r.2, k.same_id r.0) (s.fresh r.0 r.1);
}

-- A copy of a delivery that is being worked on: an attempt is left, of as many as its row allows.
pub record Held (c : WebhookDelivery) (ds : List WebhookDelivery) : Type 0 where
  pub more : c.attempt_count < c.max_attempts
  pub same_max : (k : WebhookDelivery) → In k ds → k.id ≡ c.id → k.max_attempts ≡ c.max_attempts

pub map-Held :
    (g : WebhookDelivery → WebhookDelivery) (c : WebhookDelivery) (ds : List WebhookDelivery)
    → Keeps g
    → Held c ds
    → Held c (map g ds)
map-Held g c ds k x = record {
  more = x.more;
  same_max = λ d i e.
      let r = In-map g ds i in
      ap (λ (a : WebhookDelivery). a.max_attempts) r.2
      ∙ k.same_max r.0
      ∙ x.same_max r.0 r.1 (sym (k.same_id r.0) ∙ ap (λ (a : WebhookDelivery). a.id) (sym r.2) ∙ e);
}

failed_once-Sound :
    (id : Uuid) (e : WebhookEndpoint)
    → SoundEndpoint e
    → SoundEndpoint (failed_once auto_disable_after id e)
failed_once-Sound id e s = elim (Bool-cases (e.id == id)) [
  | inr other ↦ rw (other) s
  | inl same ↦ elim (Bool-cases (leb auto_disable_after (e.consecutive_failures + 1))) [
    | inl many ↦ rw (same, many) (λ x. absurd (false-true x))
    | inr few ↦ rw (same, few) (λ x. below few)
  ]
]
  where
    false-true : ◌≡◌ {A = Bool} false true → ⊥
    false-true x = cc

    below : {n : ℕ} → leb auto_disable_after n ≡ false → n < auto_disable_after
    below x = ground arith

reset-Sound : (id : Uuid) (e : WebhookEndpoint) → SoundEndpoint e → SoundEndpoint (reset id e)
reset-Sound id e s = elim (Bool-cases (e.id == id)) [
  | inr other ↦ rw (other) s
  | inl same ↦ rw (same) (λ x. omega arith)
]

pub increment_webhook_endpoint_failures-Sound :
    (id : Uuid) (es : List WebhookEndpoint)
    → ((e : WebhookEndpoint) → In e es → SoundEndpoint e)
    → (e : WebhookEndpoint) → In e (increment_webhook_endpoint_failures auto_disable_after id es)
    → SoundEndpoint e
unfolding increment_webhook_endpoint_failures
increment_webhook_endpoint_failures-Sound id es s e i =
    let r = In-map (failed_once auto_disable_after id) es i in
    rw (r.2) (failed_once-Sound id r.0 (s r.0 r.1))

pub reset_webhook_endpoint_failures-Sound :
    (id : Uuid) (es : List WebhookEndpoint)
    → ((e : WebhookEndpoint) → In e es → SoundEndpoint e)
    → (e : WebhookEndpoint) → In e (reset_webhook_endpoint_failures id es)
    → SoundEndpoint e
unfolding reset_webhook_endpoint_failures
reset_webhook_endpoint_failures-Sound id es s e i =
    let r = In-map (reset id) es i in rw (r.2) (reset-Sound id r.0 (s r.0 r.1))
