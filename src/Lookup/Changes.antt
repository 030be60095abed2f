-- ===== src/Lookup/Changes.antt =====
-- The statements on items take each a step.
use sms.Prelude.{
  ℕ, ◌≤◌, ◌≡◌, refl, sym, Bool, true, false, ◌&&◌, Option, none, some, List, [], ◌∷◌, All, any,
  arith, inl, inr, Bool-cases, ◌==◌, if◌then◌else◌,
}
use sms.Prelude.Int.{ℤ}
use sms.Store.Types.{Uuid, BillingAction, LookupItem, LookupItemStatus, Db}
use sms.Store.Errors.{Err, Result, ok, err, no_rows, unique_violation}
use sms.Store.Rows.{set_lookup_item_billing_action}
use sms.Lookup.State.{status_eq}
use sms.Lookup.Items.{
  Transition, changed_item, may_change, update_lookup_item, provider_message_taken,
  transition_lookup_item, or_else,
}
use sms.Lookup.Closed.{Reaches, stays, WithinPolls, Allowed}
use sms.Lookup.Steps.{Step, Step-refl, Rows, Rows-refl, Steps}

pub update_lookup_item-Rows :
    (R : LookupItem → LookupItem → Type 0)
    → ((i : LookupItem) → R i i)
    → (may : LookupItem → Bool) (set : LookupItem → LookupItem) (is : List LookupItem)
      {j : LookupItem} {js : List LookupItem}
    → ((i : LookupItem) → may i ≡ true → R i (set i))
    → update_lookup_item may set is ≡ some (j, js)
    → Rows R is js
unfolding update_lookup_item
update_lookup_item-Rows R r may set [] k e = absurd (nothing e)
  where
    nothing :
        {r : LookupItem × List LookupItem}
        → ◌≡◌ {A = Option (LookupItem × List LookupItem)} none (some r)
        → ⊥
    nothing x = cc
update_lookup_item-Rows R r may set (i ∷ is) {j} {js} k e = elim (Bool-cases (may i)) [
  | inl here ↦ rw (sym (table_of (rw (update_lookup_item, here) at e))) (k i here, Rows-refl R r is)
  | inr there ↦
      later (update_lookup_item may set is) (λ q rs f. update_lookup_item-Rows R r may set is k f)
        refl (rw (update_lookup_item, there) at e)
]
  where
    table_of :
        {q : LookupItem} {rs : List LookupItem}
        → ◌≡◌ {A = Option (LookupItem × List LookupItem)} (some (q, rs)) (some (j, js))
        → rs ≡ js
    table_of x = cc

    later :
        (o : Option (LookupItem × List LookupItem))
        → ((r : LookupItem) (rs : List LookupItem)
            → update_lookup_item may set is ≡ some (r, rs)
            → Rows R is rs)
        → update_lookup_item may set is ≡ o
        → (elim o as (λ r. Option (LookupItem × List LookupItem)) [
          | none ↦ none
          | some (r, rs) ↦ some (r, i ∷ rs)
        ])
          ≡ some (j, js)
        → Rows R (i ∷ is) js
    later none rest f x = absurd (nothing x)
      where
        nothing :
            {r : LookupItem × List LookupItem}
            → ◌≡◌ {A = Option (LookupItem × List LookupItem)} none (some r)
            → ⊥
        nothing y = cc
    later (some (q, rs)) rest f x = rw (sym (table_of x)) (r i, rest q rs f)

status_eq-same : (a b : LookupItemStatus) → status_eq a b ≡ true → a ≡ b
status_eq-same a b e = ground arith

reached :
    (s to : LookupItemStatus) (from : List LookupItemStatus)
    → All (λ f. Reaches f to) from
    → any (status_eq s) from ≡ true
    → Reaches s to
reached s to [] a e = absurd (false-true e)
  where
    false-true : false ≡ true → ⊥
    false-true x = cc
reached s to (f ∷ from) a e = elim (Bool-cases (status_eq s f)) [
  | inl here ↦ rw (status_eq-same s f here) a.0
  | inr there ↦ reached s to from a.1 (rw there at e)
]

pub changed-Step :
    (now : ℕ) (t : Transition) (i : LookupItem)
    → Allowed t
    → may_change t i ≡ true
    → Step i (changed_item now t i)
changed-Step now t i a e = record {
  forward = reached i.status t.to_status t.from_statuses a.forward (second _ _ e);
  polls = λ h. within t.poll_attempts i.poll_attempts a.polls h;
  same_id = refl;
  same_job = refl;
  same_client = refl;
  same_price = refl;
}
  where
    second : (b c : Bool) → (b && c) ≡ true → c ≡ true
    second b c x = ground arith

    within : (o : Option ℕ) (n : ℕ) → WithinPolls o → n ≤ 120 → or_else o n ≤ 120
    within none n p h = h
    within (some m) n p h = p

-- What a transition changes of the tables: of the items, a row that it may change.
pub transition_lookup_item-Rows :
    (R : LookupItem → LookupItem → Type 0)
    → ((i : LookupItem) → R i i)
    → (now : ℕ) (t : Transition) (db : Db) {i : LookupItem} {db' : Db}
    → ((i : LookupItem) → may_change t i ≡ true → R i (changed_item now t i))
    → transition_lookup_item now t db ≡ ok (i, db')
    → (is : List LookupItem) × (db' ≡ record db { lookup_items = is }) × Rows R db.lookup_items is
unfolding transition_lookup_item
transition_lookup_item-Rows R r now t db {i} {db'} a e =
    found (update_lookup_item (may_change t) (changed_item now t) db.lookup_items) refl e
  where
    refused :
        {e : Err} {q : LookupItem × Db} → ◌≡◌ {A = Result (LookupItem × Db)} (err e) (ok q) → ⊥
    refused y = cc

    same_db :
        {j : LookupItem} {d : Db}
        → ◌≡◌ {A = Result (LookupItem × Db)} (ok (j, d)) (ok (i, db'))
        → db' ≡ d
    same_db y = cc

    found :
        (o : Option (LookupItem × List LookupItem))
        → update_lookup_item (may_change t) (changed_item now t) db.lookup_items ≡ o
        → (elim o as (λ r. Result (LookupItem × Db)) [
          | none ↦ err no_rows
          | some (j, js) ↦
              if provider_message_taken j db.lookup_items
              then err unique_violation
              else ok (j, record db { lookup_items = js })
        ])
          ≡ ok (i, db')
        → (is : List LookupItem) × (db' ≡ record db { lookup_items = is })
          × Rows R db.lookup_items is
    found none f x = absurd (refused x)
    found (some (j, js)) f x = elim (Bool-cases (provider_message_taken j db.lookup_items)) [
      | inl taken ↦ absurd (refused (rw taken at x))
      | inr free ↦ (
        js,
        same_db (rw free at x),
        update_lookup_item-Rows R r (may_change t) (changed_item now t) db.lookup_items a f,
      )
    ]

pub transition_lookup_item-Steps :
    (now : ℕ) (t : Transition) (db : Db) {i : LookupItem} {db' : Db}
    → Allowed t
    → transition_lookup_item now t db ≡ ok (i, db')
    → (is : List LookupItem) × (db' ≡ record db { lookup_items = is }) × Steps db.lookup_items is
transition_lookup_item-Steps now t db a e =
    transition_lookup_item-Rows Step Step-refl now t db (λ i m. changed-Step now t i a m) e

-- The billing columns of one row.
pub set_lookup_item_billing_action-Rows :
    (R : LookupItem → LookupItem → Type 0)
    → ((i : LookupItem) → R i i)
    → (action : BillingAction) (cost : Option ℤ) (id : Uuid) (is : List LookupItem)
    → ((i : LookupItem)
        → (i.id == id) ≡ true
        → R i (record i { billing_action = some action; actual_cost = cost }))
    → Rows R is (set_lookup_item_billing_action action cost id is)
unfolding set_lookup_item_billing_action
set_lookup_item_billing_action-Rows R r action cost id [] billed = tt
set_lookup_item_billing_action-Rows R r action cost id (i ∷ is) billed =
    elim (Bool-cases (i.id == id)) [
      | inl here ↦ rw (set_lookup_item_billing_action, here) (billed i here, Rows-refl R r is)
      | inr there ↦
          rw (set_lookup_item_billing_action, there)
            (r i, set_lookup_item_billing_action-Rows R r action cost id is billed)
    ]

pub set_lookup_item_billing_action-Steps :
    (action : BillingAction) (cost : Option ℤ) (id : Uuid) (is : List LookupItem)
    → Steps is (set_lookup_item_billing_action action cost id is)
set_lookup_item_billing_action-Steps action cost id is =
    set_lookup_item_billing_action-Rows Step Step-refl action cost id is λ i here. record {
      forward = stays;
      polls = λ h. h;
      same_id = refl;
      same_job = refl;
      same_client = refl;
      same_price = refl;
    }
