-- ===== src/Webhooks/Delivering.antt =====
-- internal/webhooks/deliver.go: deliveries keep the invariant, whatever the endpoints answer.
use sms.Prelude.{
  ℕ, ◌+◌, ◌<◌, ◌≡◌, refl, inl, inr, Bool, true, false, ◌&&◌, not, none, some, List, [], ◌∷◌, any,
  In, at_head, in_tail, arith, ltb, leb, Bool-cases, Option-cases, if◌then◌else◌, ◌==◌, ==_iff,
}
use sms.Store.Types.{Uuid}
use sms.Webhooks.Schedule.{auto_disable_after, next_attempt_at}
use sms.Webhooks.Tables.{
  hook_failed, hook_dead, WebhookDelivery, WebhookEndpoint, Hooks, is_open, with_id,
  update_delivery, attempted, arrived, mark_webhook_delivery_attempt,
  mark_webhook_delivery_delivered, increment_webhook_endpoint_failures,
  reset_webhook_endpoint_failures, get_webhook_endpoint,
}
use sms.Webhooks.Deliver.{
  Answer, undecryptable, no_answer, answered, after_mark, fail_attempt, on_response, give_up,
  deliver_one, deliver_all,
}
use sms.Webhooks.Sound.{
  SoundDelivery, SoundEndpoint, Sound, Keeps, Held, map-Sound, map-Held,
  increment_webhook_endpoint_failures-Sound, reset_webhook_endpoint_failures-Sound,
}

-- From tables to tables: the invariant, and what the copies of deliveries say of their rows.
pub record Goes (h h' : Hooks) : Type 0 where
  pub sound : Sound h'
  pub held : (c : WebhookDelivery) → Held c h.deliveries → Held c h'.deliveries

Goes-refl : (h : Hooks) → Sound h → Goes h h
Goes-refl h s = record { sound = s; held = λ c x. x }

with_id-Keeps :
    (id : Uuid) (set : WebhookDelivery → WebhookDelivery) → Keeps set → Keeps (with_id id set)
with_id-Keeps id set k = record { same_id = λ d. by_id d; same_max = λ d. by_max d }
  where
    by_id : (d : WebhookDelivery) → (with_id id set d).id ≡ d.id
    by_id d = elim (Bool-cases (d.id == id)) [
      | inl same ↦ rw (same) (k.same_id d)
      | inr other ↦ rw (other) refl
    ]

    by_max : (d : WebhookDelivery) → (with_id id set d).max_attempts ≡ d.max_attempts
    by_max d = elim (Bool-cases (d.id == id)) [
      | inl same ↦ rw (same) (k.same_max d)
      | inr other ↦ rw (other) refl
    ]

-- A write on the row of a copy, and one on the endpoints.
update-Goes :
    (c : WebhookDelivery) (set : WebhookDelivery → WebhookDelivery)
    (next : List WebhookEndpoint → List WebhookEndpoint) (h : Hooks)
    → Sound h
    → Keeps set
    → ((d : WebhookDelivery) → In d h.deliveries → d.id ≡ c.id → SoundDelivery (set d))
    → ((e : WebhookEndpoint) → In e (next h.endpoints) → SoundEndpoint e)
    → Goes h (after_mark h next (update_delivery c.id set h.deliveries))
update-Goes c set next h s k each ends =
    elim (Bool-cases (any (λ (d : WebhookDelivery). d.id == c.id) h.deliveries)) [
      | inr missing ↦ rw (missing) (Goes-refl h s)
      | inl there ↦ rw (there) (record {
        sound =
            map-Sound (with_id c.id set) (next h.endpoints) h s (with_id-Keeps c.id set k)
              (λ d i. written d i) ends;
        held = λ x y. map-Held (with_id c.id set) x h.deliveries (with_id-Keeps c.id set k) y;
      })
    ]
  where
    written : (d : WebhookDelivery) → In d h.deliveries → SoundDelivery (with_id c.id set d)
    written d i = elim (Bool-cases (d.id == c.id)) [
      | inl same ↦ rw (same) (each d i ((==_iff d.id c.id).0 same))
      | inr other ↦ rw (other) (s.deliveries d i)
    ]

false-true : ◌≡◌ {A = Bool} false true → ⊥
false-true y = cc

not_yet : (m n : ℕ) → leb m n ≡ false → n < m
not_yet m n e = ground arith

-- A row after one more attempt that failed.
tried :
    (now : ℕ) (c : WebhookDelivery) (code : ℕ) (d : WebhookDelivery)
    → c.attempt_count < c.max_attempts
    → d.max_attempts ≡ c.max_attempts
    → SoundDelivery (
        attempted
          (if leb c.max_attempts (c.attempt_count + 1) then hook_dead else hook_failed)
          (c.attempt_count + 1)
          (if ltb 0 code then some code else none)
          (if leb c.max_attempts (c.attempt_count + 1)
            then none
            else next_attempt_at (c.attempt_count + 1) c.max_attempts now)
          d)
unfolding next_attempt_at
tried now c code d more m = elim (Bool-cases (leb c.max_attempts (c.attempt_count + 1))) [
  | inl last ↦
      rw (last) (record {
        within = omega (arith, more, m);
        more = λ y. absurd (false-true y);
        timed = refl;
      })
  | inr left ↦ rw (left) (record {
    within = omega (arith, more, m);
    more = λ y. omega (arith, not_yet c.max_attempts (c.attempt_count + 1) left, m);
    timed = refl;
  })
]

module _ (now : ℕ) (c : WebhookDelivery) (h : Hooks) (s : Sound h) (x : Held c h.deliveries) where
  give_up-Goes : Goes h (give_up now c h)
  unfolding give_up mark_webhook_delivery_attempt
  give_up-Goes =
      update-Goes c (attempted hook_dead c.attempt_count none none) (λ es. es) h s
        (record { same_id = λ d. refl; same_max = λ d. refl })
        (λ d i e. record {
          within = omega (arith, x.more, x.same_max d i e);
          more = λ y. absurd (false-true y);
          timed = refl;
        })
        s.endpoints

  fail_attempt-Goes : (ep : WebhookEndpoint) (code : ℕ) → Goes h (fail_attempt now c ep code h)
  unfolding fail_attempt mark_webhook_delivery_attempt
  fail_attempt-Goes ep code =
      update-Goes c _ (increment_webhook_endpoint_failures auto_disable_after ep.id) h s
        (record { same_id = λ d. refl; same_max = λ d. refl })
        (λ d i e. tried now c code d x.more (x.same_max d i e))
        (increment_webhook_endpoint_failures-Sound ep.id h.endpoints s.endpoints)

  on_response-Goes :
      (answer : Answer) (ep : WebhookEndpoint) → Goes h (on_response now answer c ep h)
  unfolding on_response mark_webhook_delivery_delivered
  on_response-Goes undecryptable ep = Goes-refl h s
  on_response-Goes no_answer ep = fail_attempt-Goes ep 0
  on_response-Goes (answered code) ep = elim (Bool-cases (leb 200 code && ltb code 300)) [
    | inr bad ↦ rw (on_response, bad) (fail_attempt-Goes ep code)
    | inl good ↦
        rw (on_response, good)
          (update-Goes c (arrived (c.attempt_count + 1) (some code))
            (reset_webhook_endpoint_failures ep.id) h s
            (record { same_id = λ d. refl; same_max = λ d. refl })
            (λ d i e. record {
              within = omega (arith, x.more, x.same_max d i e);
              more = λ y. absurd (false-true y);
              timed = refl;
            })
            (reset_webhook_endpoint_failures-Sound ep.id h.endpoints s.endpoints))
  ]

  deliver_one-Goes : (answer : Answer) → Goes h (deliver_one now answer c h)
  unfolding deliver_one
  deliver_one-Goes answer = elim (Bool-cases (not (is_open c.status))) [
    | inl shut ↦ rw (deliver_one, shut) (Goes-refl h s)
    | inr opened ↦ elim (Option-cases (get_webhook_endpoint c.endpoint_id h.endpoints)) [
      | inl missing ↦ rw (deliver_one, opened, missing) give_up-Goes
      | inr (ep, found) ↦
          rw (deliver_one, opened, found)
            (either ep.enabled (on_response-Goes answer ep) give_up-Goes)
    ]
  ]
    where
      either : (b : Bool) {a z : Hooks} → Goes h a → Goes h z → Goes h (if b then a else z)
      either true p q = p
      either false p q = q

pub deliver_all-Sound :
    (now : ℕ) (answer : Uuid → Answer) (cs : List WebhookDelivery) (h : Hooks)
    → Sound h
    → ((c : WebhookDelivery) → In c cs → Held c h.deliveries)
    → Sound (deliver_all now answer cs h)
unfolding deliver_all
deliver_all-Sound now answer [] h s held = s
deliver_all-Sound now answer (c ∷ cs) h s held =
    let g = deliver_one-Goes now c h s (held c at_head) (answer c.id) in
    deliver_all-Sound now answer cs (deliver_one now (answer c.id) c h) g.sound
      (λ k i. g.held k (held k (in_tail i)))
