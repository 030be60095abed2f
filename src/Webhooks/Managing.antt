-- ===== src/Webhooks/Managing.antt =====
-- internal/webhooks/service.go: the management of endpoints keeps the invariant of deliveries.
use sms.Prelude.{
  ◌≡◌, refl, sym, inl, inr, Bool, true, false, not, Option, none, some, List, [], ◌∷◌, map, any,
  in_cons, In-map, In-filter_by, arith, leb, All, if◌then◌else◌, Bool-cases, Option-cases, ◌==◌,
  filter_by,
}
use sms.Prelude.Text.{Text}
use sms.Store.Types.{Uuid}
use sms.Store.Errors.{Err, Result, ok, err}
use sms.Webhooks.Tables.{WebhookDelivery, WebhookEndpoint, Hooks}
use sms.Webhooks.Sound.{SoundEndpoint, Sound}
use sms.Webhooks.Manage.{
  normalize_events, count_webhook_endpoints_for_client, max_endpoints_per_client, is_of,
  with_endpoint, create, forgives, updated, updated_if, update_webhook_endpoint, normalize_given,
  patch, rotate_secret, delete, Request, creating, patching, rotating, deleting, manage,
}

refused-ok : {e : Err} {h : Hooks} → ◌≡◌ {A = Result Hooks} (err e) (ok h) → ⊥
refused-ok x = cc

ok_same : {a b : Hooks} → ◌≡◌ {A = Result Hooks} (ok a) (ok b) → a ≡ b
ok_same x = cc

of_ok : {a b : Hooks} → Sound a → ◌≡◌ {A = Result Hooks} (ok a) (ok b) → Sound b
of_ok s e = rw (sym (ok_same e)) s

with_endpoint-Sound :
    (client : Uuid) (enabled : Option Bool) (events : List Text) (h : Hooks)
    → Sound h
    → Sound (with_endpoint client enabled events h)
with_endpoint-Sound client enabled events h s = record {
  deliveries = s.deliveries;
  endpoints = λ e i. in_cons SoundEndpoint (λ on. omega arith) (λ j. s.endpoints e j) i;
  unique = s.unique;
  fresh = λ d i. omega (arith, s.fresh d i);
}

create-Sound :
    (client : Uuid) (is_url : Bool) (events : List Text) (enabled : Option Bool) (h : Hooks)
    {h' : Hooks}
    → Sound h
    → create client is_url events enabled h ≡ ok h'
    → Sound h'
unfolding create
create-Sound client is_url events enabled h s e = elim (Bool-cases (not is_url)) [
  | inl bad ↦ absurd (refused-ok (rw (create, bad) at e))
  | inr good ↦ elim (Option-cases (normalize_events events)) [
    | inl unknown ↦ absurd (refused-ok (rw (create, good, unknown) at e))
    | inr (wanted, known) ↦
        elim (Bool-cases
          (leb max_endpoints_per_client (count_webhook_endpoints_for_client client h.endpoints))) [
            | inl many ↦ absurd (refused-ok (rw (create, good, known, many) at e))
            | inr few ↦
                of_ok (with_endpoint-Sound client enabled wanted h s)
                  (rw (create, good, known, few) at e)
          ]
  ]
]

updated-SoundEndpoint :
    (events : Option (List Text)) (enabled : Option Bool) (forget : Bool) (e : WebhookEndpoint)
    → (enabled ≡ some true → forget ≡ true)
    → SoundEndpoint e
    → SoundEndpoint (updated events enabled forget e)
updated-SoundEndpoint events enabled true e k s = λ on. omega arith
updated-SoundEndpoint events none false e k s = s
updated-SoundEndpoint events (some false) false e k s = λ on. absurd (false-true on)
  where
    false-true : ◌≡◌ {A = Bool} false true → ⊥
    false-true x = cc
updated-SoundEndpoint events (some true) false e k s = absurd (false-true (k refl))
  where
    false-true : ◌≡◌ {A = Bool} false true → ⊥
    false-true x = cc

update-Sound :
    (client id : Uuid) (events : Option (List Text)) (enabled : Option Bool) (forget : Bool)
    (h : Hooks) {h' : Hooks}
    → (enabled ≡ some true → forget ≡ true)
    → Sound h
    → update_webhook_endpoint client id events enabled forget h ≡ ok h'
    → Sound h'
unfolding update_webhook_endpoint
update-Sound client id events enabled forget h k s e =
    elim (Bool-cases (any (is_of client id) h.endpoints)) [
      | inr missing ↦ absurd (refused-ok (rw (update_webhook_endpoint, missing) at e))
      | inl there ↦ of_ok now_sound (rw (update_webhook_endpoint, there) at e)
    ]
  where
    each :
        (x : WebhookEndpoint)
        → SoundEndpoint x
        → SoundEndpoint (updated_if client id events enabled forget x)
    each x y = elim (Bool-cases (is_of client id x)) [
      | inl this ↦ rw (this) (updated-SoundEndpoint events enabled forget x k y)
      | inr other ↦ rw (other) y
    ]

    now_sound :
        Sound
          (record h { endpoints = map (updated_if client id events enabled forget) h.endpoints })
    now_sound = record {
      deliveries = s.deliveries;
      endpoints = λ x i.
          let r = In-map (updated_if client id events enabled forget) h.endpoints i in
          rw (r.2) (each r.0 (s.endpoints r.0 r.1));
      unique = s.unique;
      fresh = s.fresh;
    }

forgives_enabled : (enabled : Option Bool) → enabled ≡ some true → forgives enabled ≡ true
forgives_enabled enabled e = rw (e) refl

-- A change that succeeds is an update.
patch-updates :
    (client id : Uuid) (is_url : Bool) (events : Option (List Text)) (enabled : Option Bool)
    (h : Hooks) {h' : Hooks}
    → patch client id is_url events enabled h ≡ ok h'
    → (wanted : Option (List Text)) × (update_webhook_endpoint client id wanted enabled
          (forgives enabled)
          h
        ≡ ok h')
unfolding patch
patch-updates client id is_url events enabled h e =
    elim (Bool-cases (not (any (is_of client id) h.endpoints))) [
      | inl missing ↦ absurd (refused-ok (rw (patch, missing) at e))
      | inr there ↦ elim (Bool-cases (not is_url)) [
        | inl bad ↦ absurd (refused-ok (rw (patch, there, bad) at e))
        | inr good ↦ elim (Option-cases (normalize_given events)) [
          | inl unknown ↦ absurd (refused-ok (rw (patch, there, good, unknown) at e))
          | inr (wanted, known) ↦ (wanted, rw (patch, there, good, known) at e)
        ]
      ]
    ]

-- Of the endpoints that `chosen` picks, none has a failure.
abbrev pub Rested : (WebhookEndpoint → Bool) → List WebhookEndpoint → Type 0
Rested chosen = All λ e. (if chosen e then e.consecutive_failures else 0) ≡ 0

-- The endpoints that a request sets going again: it enables them, or gives them a new secret.
abbrev pub restarts : Request → WebhookEndpoint → Bool
restarts (patching client id is_url events (some true)) e = is_of client id e
restarts (rotating client id) e = is_of client id e
restarts _ e = false

none-Rested : (es : List WebhookEndpoint) → Rested (λ e. false) es
none-Rested [] = tt
none-Rested (e ∷ es) = (refl, none-Rested es)

updated-Rested :
    (client id : Uuid) (events : Option (List Text)) (enabled : Option Bool)
    (es : List WebhookEndpoint)
    → Rested (is_of client id) (map (updated_if client id events enabled true) es)
updated-Rested client id events enabled [] = tt
updated-Rested client id events enabled (e ∷ es) = (
  elim (Bool-cases (is_of client id e)) [
    | inl this ↦ rw (this, this) refl
    | inr other ↦ rw (other, other) refl
  ],
  updated-Rested client id events enabled es,
)

update-Rested :
    (client id : Uuid) (events : Option (List Text)) (enabled : Option Bool) (h : Hooks)
    {h' : Hooks}
    → update_webhook_endpoint client id events enabled true h ≡ ok h'
    → Rested (is_of client id) h'.endpoints
unfolding update_webhook_endpoint
update-Rested client id events enabled h e = elim (Bool-cases (any (is_of client id) h.endpoints)) [
  | inr missing ↦ absurd (refused-ok (rw (update_webhook_endpoint, missing) at e))
  | inl there ↦
      rw (sym (ok_same (rw (update_webhook_endpoint, there) at e)))
        (updated-Rested client id events enabled h.endpoints)
]

patch-Sound :
    (client id : Uuid) (is_url : Bool) (events : Option (List Text)) (enabled : Option Bool)
    (h : Hooks) {h' : Hooks}
    → Sound h
    → patch client id is_url events enabled h ≡ ok h'
    → Sound h'
patch-Sound client id is_url events enabled h s e =
    let (wanted, updates) = patch-updates client id is_url events enabled h e in
    update-Sound client id wanted enabled (forgives enabled) h (forgives_enabled enabled) s updates

delete-Sound :
    (client id : Uuid) (h : Hooks) {h' : Hooks} → Sound h → delete client id h ≡ ok h' → Sound h'
unfolding delete
delete-Sound client id h s e = elim (Bool-cases (any (is_of client id) h.endpoints)) [
  | inr missing ↦ absurd (refused-ok (rw (delete, missing) at e))
  | inl there ↦ of_ok fewer (rw (delete, there) at e)
]
  where
    left : WebhookDelivery → Bool
    left d = not (d.endpoint_id == id)

    fewer : Sound (record h {
      endpoints = filter_by (λ e. not (is_of client id e)) h.endpoints;
      deliveries = filter_by (λ (d : WebhookDelivery). not (d.endpoint_id == id)) h.deliveries;
    })
    fewer = record {
      deliveries = λ d i. s.deliveries d (In-filter_by _ h.deliveries i).0;
      endpoints = λ x i. s.endpoints x (In-filter_by _ h.endpoints i).0;
      unique = λ a b i j x.
          s.unique a b (In-filter_by _ h.deliveries i).0 (In-filter_by _ h.deliveries j).0 x;
      fresh = λ d i. s.fresh d (In-filter_by _ h.deliveries i).0;
    }

-- A request to create, change or delete an endpoint, or to give it a new secret, that succeeds keeps
-- the invariant of deliveries and endpoints; and where it enables an endpoint or gives it a new
-- secret, the endpoint has no failures afterwards.
pub manage-Sound :
    (request : Request) (h : Hooks) {h' : Hooks}
    → Sound h
    → manage request h ≡ ok h'
    → Sound h' × Rested (restarts request) h'.endpoints
unfolding manage rotate_secret
manage-Sound (creating client is_url events enabled) h s e =
    (create-Sound client is_url events enabled h s e, none-Rested _)
manage-Sound (patching client id is_url events none) h s e =
    (patch-Sound client id is_url events none h s e, none-Rested _)
manage-Sound (patching client id is_url events (some false)) h s e =
    (patch-Sound client id is_url events (some false) h s e, none-Rested _)
manage-Sound (patching client id is_url events (some true)) h s e =
    let (wanted, updates) = patch-updates client id is_url events (some true) h e in
    (
      patch-Sound client id is_url events (some true) h s e,
      update-Rested client id wanted (some true) h updates,
    )
manage-Sound (rotating client id) h s e =
    (update-Sound client id none none true h (λ x. refl) s e, update-Rested client id none none h e)
manage-Sound (deleting client id) h s e = (delete-Sound client id h s e, none-Rested _)
