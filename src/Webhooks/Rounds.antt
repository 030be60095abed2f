-- ===== src/Webhooks/Rounds.antt =====
-- internal/webhooks/deliver.go: a round of deliveries, and the queueing of an event.
use sms.Prelude.{
  ℕ, zero, suc, ◌≡◌, refl, sym, ◌∙◌, ap, inl, inr, Bool, true, false, ◌&&◌, List, [], ◌∷◌, map,
  take, In, at_head, in_tail, in_cons, In-map, In-filter_by, arith, ltb, Bool-cases, if◌then◌else◌,
  ◌==◌, ==_iff, filter_by,
}
use sms.Store.Types.{Uuid, Client}
use sms.Store.Rows.{get_client_by_id}
use sms.Store.Outbox.{is_active}
use sms.Webhooks.Tables.{
  WebhookDelivery, Hooks, is_open, comes_due, is_deliverable, comes_before, insert_ordered, ordered,
  is_picked, put_off_if, claim_webhook_deliveries,
}
use sms.Webhooks.Deliver.{Answer, deliver_due}
use sms.Webhooks.Sound.{SoundDelivery, Sound, Keeps, Held, map-Sound}
use sms.Webhooks.Delivering.{deliver_all-Sound}

insert_ordered-In :
    (d : WebhookDelivery) (es : List WebhookDelivery) {p : WebhookDelivery}
    → In p (insert_ordered d es)
    → In p (d ∷ es)
unfolding insert_ordered
insert_ordered-In d [] i = i
insert_ordered-In d (e ∷ es) {p} i = elim (Bool-cases (comes_before d e)) [
  | inl first ↦ rw (insert_ordered, first) at i
  | inr later ↦
      in_cons (λ q. In q (d ∷ e ∷ es)) (in_tail at_head)
        (λ j.
          in_cons (λ q. In q (d ∷ e ∷ es)) at_head (λ k. in_tail (in_tail k))
            (insert_ordered-In d es j))
        (rw (insert_ordered, later) at i)
]

ordered-In : (ds : List WebhookDelivery) {p : WebhookDelivery} → In p (ordered ds) → In p ds
unfolding ordered
ordered-In [] i = i
ordered-In (d ∷ ds) i =
    in_cons (λ q. In q (d ∷ ds)) at_head (λ j. in_tail (ordered-In ds j))
      (insert_ordered-In d (ordered ds) i)

take-In : (n : ℕ) (ds : List WebhookDelivery) {p : WebhookDelivery} → In p (take n ds) → In p ds
take-In zero ds i = elim i [ ]
take-In (suc n) [] i = elim i [ ]
take-In (suc n) (d ∷ ds) i = in_cons (λ q. In q (d ∷ ds)) at_head (λ j. in_tail (take-In n ds j)) i

is_picked-In :
    (picks : List WebhookDelivery) (d : WebhookDelivery)
    → is_picked picks d ≡ true
    → (p : WebhookDelivery) × In p picks × (p.id ≡ d.id)
is_picked-In [] d e = absurd (false-true e)
  where
    false-true : ◌≡◌ {A = Bool} false true → ⊥
    false-true y = cc
is_picked-In (p ∷ ps) d e = elim (Bool-cases (p.id == d.id)) [
  | inl same ↦ (p, at_head, (==_iff p.id d.id).0 same)
  | inr other ↦ (let r = is_picked-In ps d (rw (other) at e) in (r.0, in_tail r.1, r.2))
]

open_of_ready :
    (now : ℕ) (clients : List Client) (d : WebhookDelivery)
    → is_deliverable now clients d ≡ true
    → is_open d.status ≡ true
unfolding is_deliverable
open_of_ready now clients d e = left_true (is_open d.status) (comes_due now d.next_attempt) (
    left_true (is_open d.status && comes_due now d.next_attempt)
      (is_active (get_client_by_id d.client_id clients)) e)
  where
    left_true : (b c : Bool) → (b && c) ≡ true → b ≡ true
    left_true b c x = ground arith

put_off_if-Keeps : (now : ℕ) (picks : List WebhookDelivery) → Keeps (put_off_if now picks)
put_off_if-Keeps now picks = record { same_id = λ d. by_id d; same_max = λ d. by_max d }
  where
    by_id : (d : WebhookDelivery) → (put_off_if now picks d).id ≡ d.id
    by_id d = elim (Bool-cases (is_picked picks d)) [ inl e ↦ rw (e) refl | inr e ↦ rw (e) refl ]

    by_max : (d : WebhookDelivery) → (put_off_if now picks d).max_attempts ≡ d.max_attempts
    by_max d = elim (Bool-cases (is_picked picks d)) [ inl e ↦ rw (e) refl | inr e ↦ rw (e) refl ]

put_off_if-status :
    (now : ℕ) (picks : List WebhookDelivery) (d : WebhookDelivery)
    → (put_off_if now picks d).status ≡ d.status
put_off_if-status now picks d = elim (Bool-cases (is_picked picks d)) [
  | inl e ↦ rw (e) refl
  | inr e ↦ rw (e) refl
]

is_picked-same :
    (picks : List WebhookDelivery) (c d : WebhookDelivery)
    → c.id ≡ d.id
    → is_picked picks c ≡ is_picked picks d
is_picked-same [] c d e = refl
is_picked-same (p ∷ ps) c d e = rw (e, is_picked-same ps c d e) refl

module _ (now limit : ℕ) (h : Hooks) (s : Sound h) where
  abbrev picks : List WebhookDelivery
  picks = take limit (ordered (filter_by (is_deliverable now h.clients) h.deliveries))

  chosen_open :
      (d : WebhookDelivery) → In d h.deliveries → is_picked picks d ≡ true → is_open d.status ≡ true
  chosen_open d i e =
      let (p, among, same) = is_picked-In picks d e in
      let (there, ready) =
        In-filter_by (is_deliverable now h.clients) h.deliveries
          (ordered-In _ (take-In limit _ among)) in
      open_of_ready now h.clients d (rw (s.unique p d there i same) at ready)

  put_off_if-Sound :
      (d : WebhookDelivery) → In d h.deliveries → SoundDelivery (put_off_if now picks d)
  put_off_if-Sound d i = elim (Bool-cases (is_picked picks d)) [
    | inr left ↦ rw (left) (s.deliveries d i)
    | inl taken ↦ rw (taken) (record {
      within = (s.deliveries d i).within;
      more = (s.deliveries d i).more;
      timed = sym (chosen_open d i taken);
    })
  ]

  abbrev claimed_table : Hooks
  claimed_table = record h { deliveries = map (put_off_if now picks) h.deliveries }

  table-Sound : Sound claimed_table
  table-Sound =
      map-Sound (put_off_if now picks) h.endpoints h s (put_off_if-Keeps now picks)
        (λ d i. put_off_if-Sound d i) s.endpoints

  rows-Held :
      (c : WebhookDelivery)
      → In c (filter_by (is_picked picks) claimed_table.deliveries)
      → Held c claimed_table.deliveries
  rows-Held c i =
      let (there, chosen) = In-filter_by (is_picked picks) claimed_table.deliveries i in
      let (d, in_d, e) = In-map (put_off_if now picks) h.deliveries there in
      record {
        more = (table-Sound.deliveries c there).more (opened c d in_d e chosen);
        same_max = λ k j same.
            ap (λ (a : WebhookDelivery). a.max_attempts) (table-Sound.unique k c j there same);
      }
    where
      opened :
          (c d : WebhookDelivery)
          → In d h.deliveries
          → c ≡ put_off_if now picks d
          → is_picked picks c ≡ true
          → is_open c.status ≡ true
      opened c d in_d e chosen =
          let same_id =
            ap (λ (a : WebhookDelivery). a.id) e ∙ (put_off_if-Keeps now picks).same_id d in
          let same_status =
            ap (λ (a : WebhookDelivery). a.status) e ∙ put_off_if-status now picks d in
          rw (same_status) (chosen_open d in_d (sym (is_picked-same picks c d same_id) ∙ chosen))

-- A round of deliveries keeps the invariant, whatever the endpoints answer: no delivery has more
-- attempts than it may have, one that is open has an attempt left and a time for it, a dead or
-- delivered one has none; an endpoint that is enabled has failed less than twenty times in a row; and
-- ids stay unique.
pub deliver_due-Sound :
    (now : ℕ) (answer : Uuid → Answer) (limit : ℕ) (h : Hooks)
    → Sound h
    → Sound (deliver_due now answer limit h)
unfolding deliver_due claim_webhook_deliveries
deliver_due-Sound now answer limit h s =
    deliver_all-Sound now answer _ (claimed_table now (if ltb limit 1 then 10 else limit) h s)
      (table-Sound now (if ltb limit 1 then 10 else limit) h s)
      (λ c i. rows-Held now (if ltb limit 1 then 10 else limit) h s c i)
