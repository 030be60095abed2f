-- ===== src/Billing/Ledger/Marking.antt =====
-- Marking a message with the way it was settled.
use sms.Prelude.{
  ◌≡◌, refl, sym, ap, inl, inr, Option, some, none, List, [], ◌∷◌, Bool-cases, Option-cases, ◌==◌,
}
use mathlib.Core.Option
use sms.Store.Types.{Uuid, BillingAction, SmsMessage, Db}
use sms.Store.Errors.{Result, ok}
use sms.Store.Rows.{get_sms_message_by_id, set_sms_message_billing_action}

some_eq : {a b : List SmsMessage} → ◌≡◌ {A = Option (List SmsMessage)} (some a) (some b) → a ≡ b
some_eq e = cc

none-some : {a : List SmsMessage} → ◌≡◌ {A = Option (List SmsMessage)} none (some a) → ⊥
none-some e = cc

pub ok_eq : {d d' : Db} → Result.ok d ≡ ok d' → d ≡ d'
ok_eq e = cc

-- Marking a message a second time changes nothing, and the message keeps its client and price.
pub set_twice :
    (action : BillingAction) (id : Uuid) (ms : List SmsMessage) {ms' : List SmsMessage}
    → set_sms_message_billing_action action id ms ≡ some ms'
    → set_sms_message_billing_action action id ms' ≡ some ms'
unfolding set_sms_message_billing_action
set_twice action id [] e = cc
set_twice action id (m ∷ ms) {ms'} e = elim (Bool-cases (m.id == id)) [
  | inl here ↦ rw (sym (some_eq (rw here at e)), here) refl
  | inr there ↦ elim (Option-cases (set_sms_message_billing_action action id ms)) [
    | inl missing ↦ absurd (none-some (rw (there, missing) at e))
    | inr (rest, found) ↦
        rw (sym (some_eq (rw (there, found) at e)), there, set_twice action id ms found) refl
  ]
]

pub get_marked :
    (action : BillingAction) (id : Uuid) (ms : List SmsMessage) (m : SmsMessage)
    {ms' : List SmsMessage}
    → get_sms_message_by_id id ms ≡ some m
    → set_sms_message_billing_action action id ms ≡ some ms'
    → get_sms_message_by_id id ms' ≡ some (record m { billing_action = some action })
unfolding set_sms_message_billing_action get_sms_message_by_id
get_marked action id [] m g e = cc
get_marked action id (u ∷ ms) m {ms'} g e = elim (Bool-cases (u.id == id)) [
  | inl here ↦
      rw (sym (some_eq (rw here at e)), here)
        (ap (λ o. Option.map (λ (x : SmsMessage). record x { billing_action = some action }) o)
          (rw here at g))
  | inr there ↦ elim (Option-cases (set_sms_message_billing_action action id ms)) [
    | inl missing ↦ absurd (none-some (rw (there, missing) at e))
    | inr (rest, found) ↦
        rw (sym (some_eq (rw (there, found) at e)), there)
          (get_marked action id ms m (rw there at g) found)
  ]
]
