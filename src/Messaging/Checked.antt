-- ===== src/Messaging/Checked.antt =====
-- What an accepted message's input has passed.
use sms.Prelude.{
  ℕ, ◌≤◌, ◌≡◌, refl, sym, Bool, true, false, ◌&&◌, not, some, inl, inr, arith, Bool-cases,
  Option-cases, length, ltb, if◌then◌else◌,
}
use sms.Prelude.Text.{Text, trim_space}
use sms.Store.Types.{SmsMessage, DefNumber, Db}
use sms.Store.Errors.{Result, ok, err}
use sms.Store.Queue.{get_assigned_number_for_client}
use sms.Msisdn.{Dest, normalize_sender, normalize_dest}
use sms.Messaging.{
  Service, EnqueueInput, Draft, Outcome, enqueued, allows, is_blank_text, check_text, check_input,
  enqueue_priced, outcome, enqueue_draft,
}

-- The draft is the normalized input, and passes the checks.
pub record Drafted (setup : Service) (input : EnqueueInput) (draft : Draft) : Type 0 where
  pub sender : normalize_sender input.from ≡ some draft.from
  pub dest : normalize_dest input.to ≡ some draft.dest
  pub text : draft.text ≡ trim_space input.text
  pub some_text : 1 ≤ length draft.text
  pub short : length draft.text ≤ 1000
  pub direction : draft.dest.international ≡ true → allows setup.int_out ≡ true

some_length : (t : Text) → is_blank_text t ≡ false → 1 ≤ length t
some_length t e = ground arith

short_enough : (n : ℕ) → ltb 1000 n ≡ false → n ≤ 1000
short_enough n e = ground arith

check_text-enqueued :
    (setup : Service) (from : Text) (dest : Dest) (text : Text) (next : Draft → Outcome)
    {msg : SmsMessage} {db' : Db}
    → check_text setup from dest text next ≡ enqueued msg db'
    → (next (record { from = from; dest = dest; text = text }) ≡ enqueued msg db')
      × (is_blank_text text ≡ false)
      × (ltb 1000 (length text) ≡ false)
      × (dest.international ≡ true → allows setup.int_out ≡ true)
unfolding check_text
check_text-enqueued setup from dest text next h = elim (Bool-cases (is_blank_text text)) [
  | inl blank ↦ absurd (invalid_enqueued (rw blank at h))
  | inr filled ↦ elim (Bool-cases (ltb 1000 (length text))) [
    | inl long ↦ absurd (invalid_enqueued (rw (filled, long) at h))
    | inr short ↦ elim (Bool-cases (dest.international && not (allows setup.int_out))) [
      | inl off ↦ absurd (off_enqueued (rw (filled, short, off) at h))
      | inr on ↦ (rw (filled, short, on) at h, filled, short, λ e. allowed _ _ on e)
    ]
  ]
]
  where
    invalid_enqueued : {m : SmsMessage} {d : Db} → Outcome.invalid ≡ enqueued m d → ⊥
    invalid_enqueued x = cc

    off_enqueued : {m : SmsMessage} {d : Db} → Outcome.international_off ≡ enqueued m d → ⊥
    off_enqueued x = cc

    allowed : (a b : Bool) → (a && not b) ≡ false → a ≡ true → b ≡ true
    allowed a b x y = ground arith

pub check_input-enqueued :
    (setup : Service) (input : EnqueueInput) (next : Draft → Outcome) {msg : SmsMessage} {db' : Db}
    → check_input setup input next ≡ enqueued msg db'
    → (draft : Draft) × Drafted setup input draft × (next draft ≡ enqueued msg db')
unfolding check_input
check_input-enqueued setup input next h = elim (Option-cases (normalize_sender input.from)) [
  | inl none_from ↦ absurd (invalid_enqueued (rw (check_input, none_from) at h))
  | inr (from, e) ↦ elim (Option-cases (normalize_dest input.to)) [
    | inl none_to ↦ absurd (invalid_enqueued (rw (check_input, e, none_to) at h))
    | inr (dest, d) ↦
        let (went, filled, short, on) =
          check_text-enqueued setup from dest (trim_space input.text) next
            (rw (check_input, e, d) at h) in
        (
          record { from = from; dest = dest; text = trim_space input.text },
          record {
            sender = e;
            dest = d;
            text = refl;
            some_text = some_length _ filled;
            short = short_enough _ short;
            direction = on;
          },
          went,
        )
  ]
]
  where
    invalid_enqueued : {m : SmsMessage} {d : Db} → Outcome.invalid ≡ enqueued m d → ⊥
    invalid_enqueued x = cc

pub enqueue_draft-enqueued :
    (setup : Service) (now : ℕ) (input : EnqueueInput) (db : Db) (draft : Draft) {msg : SmsMessage}
    {db' : Db}
    → enqueue_draft setup now input db draft ≡ enqueued msg db'
    → ((n : DefNumber) × (get_assigned_number_for_client draft.from input.client_id db ≡ some n))
      × (enqueue_priced setup now input draft db ≡ ok (msg, db'))
unfolding enqueue_draft
enqueue_draft-enqueued setup now input db draft h =
    elim (Option-cases (get_assigned_number_for_client draft.from input.client_id db)) [
      | inl nobody ↦ absurd (not_enqueued (rw (enqueue_draft, nobody) at h))
      | inr (n, e) ↦
          ((n, e), went (enqueue_priced setup now input draft db) (rw (enqueue_draft, e) at h))
    ]
  where
    not_enqueued : {m : SmsMessage} {d : Db} → Outcome.not_assigned ≡ enqueued m d → ⊥
    not_enqueued x = cc

    went :
        (r : Result (SmsMessage × Db)) {m : SmsMessage} {d : Db}
        → outcome r ≡ enqueued m d
        → r ≡ ok (m, d)
    went (ok (a, b)) x = cc
    went (err e) x = cc

-- An input that passes the checks passes them again, with the same draft.
pub check_input-Drafted :
    (setup : Service) (input : EnqueueInput) (draft : Draft) (next : Draft → Outcome)
    → Drafted setup input draft
    → check_input setup input next ≡ next draft
unfolding check_input check_text
check_input-Drafted setup input draft next d =
    rw (check_input, d.sender, d.dest, check_text, sym d.text)
      (passes (is_blank_text draft.text) _ draft.dest.international (allows setup.int_out) _ _ _
        (filled draft.text d.some_text) (not_longer _ d.short) d.direction)
  where
    filled : (t : Text) → 1 ≤ length t → is_blank_text t ≡ false
    filled t e = ground arith

    not_longer : (n : ℕ) → n ≤ 1000 → ltb 1000 n ≡ false
    not_longer n e = ground arith

    passes :
        (a b c e : Bool) (x y z : Outcome)
        → a ≡ false
        → b ≡ false
        → (c ≡ true → e ≡ true)
        → (if a then x else if b then x else if c && not e then y else z) ≡ z
    passes a b c e h k l = ground arith
