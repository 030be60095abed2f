-- ===== src/Lookup/Alone.antt =====
-- A report on an item changes no other item.
use mathlib.Core.Path.{subst}
use sms.Prelude.{
  ℕ, ◌≡◌, refl, sym, ◌∙◌, inl, inr, Bool, true, false, ◌&&◌, not, Option, none, some, List, [], ◌∷◌,
  ◌==◌, ==_iff, arith, if◌then◌else◌, Bool-cases,
}
use sms.Store.Types.{
  Uuid, BillingAction, capture, release, LookupItem, LookupItemStatus, item_pending, LookupJob, Db,
}
use sms.Store.Errors.{Err, Result, ok, err}
use sms.Billing.Lookup.{capture_for_lookup_item, release_for_lookup_item}
use sms.Lookup.State.{status_eq, is_terminal_item}
use sms.Lookup.Items.{
  Transition, changed_item, may_change, update_lookup_item, provider_message_taken,
  transition_lookup_item,
}
use sms.Lookup.Apply.{NormalizedResult}
use sms.Lookup.Counters.{refresh_lookup_job_counters, with_job}
use sms.Lookup.World.{LookupWorld, Setup, client_is_deleted}
use sms.Lookup.Ending.{with_db, settle_terminal, refresh, action_or, enqueue_item, on_item_terminal}
use sms.Lookup.Update.{patching, patch_item}
use sms.Lookup.Closed.{if_holds}
use sms.Lookup.Settling.{Marks, same, marked, settle_lookup_item-Marks}
use sms.Lookup.Steps.{Rows, Rows-trans}
use sms.Lookup.Changes.{transition_lookup_item-Rows, set_lookup_item_billing_action-Rows}

-- A row with another id stays as it is.
abbrev pub Kept : Uuid → LookupItem → LookupItem → Type 0
Kept id i j = (i.id == id) ≡ false → j ≡ i

pub Kept-refl : (id : Uuid) (i : LookupItem) → Kept id i i
Kept-refl id i other = refl

Kept-trans : (id : Uuid) (i j k : LookupItem) → Kept id i j → Kept id j k → Kept id i k
Kept-trans id i j k p q other =
    q (subst (λ l. (l.id == id) ≡ false) (sym (p other)) other) ∙ p other

-- Both cannot be.
own : {A : Type 0} {b : Bool} → b ≡ true → b ≡ false → A
own p q = absurd (true_false p q)
  where
    true_false : {b : Bool} → b ≡ true → b ≡ false → ⊥
    true_false x y = cc

-- What the changed rows have, the row that an update gives has.
update_lookup_item-holds :
    (Q : LookupItem → Type 0) (may : LookupItem → Bool) (set : LookupItem → LookupItem)
    (is : List LookupItem) {j : LookupItem} {js : List LookupItem}
    → ((k : LookupItem) → may k ≡ true → Q (set k))
    → update_lookup_item may set is ≡ some (j, js)
    → Q j
unfolding update_lookup_item
update_lookup_item-holds Q may set [] q e = cc
update_lookup_item-holds Q may set (i ∷ is) {j} {js} q e = elim (Bool-cases (may i)) [
  | inl here ↦ subst Q (row_of (rw (update_lookup_item, here) at e)) (q i here)
  | inr there ↦
      later (update_lookup_item may set is) (λ r rs f. update_lookup_item-holds Q may set is q f)
        refl (rw (update_lookup_item, there) at e)
]
  where
    row_of :
        {r : LookupItem} {rs : List LookupItem}
        → ◌≡◌ {A = Option (LookupItem × List LookupItem)} (some (r, rs)) (some (j, js))
        → r ≡ j
    row_of x = cc

    later :
        (o : Option (LookupItem × List LookupItem))
        → ((r : LookupItem) (rs : List LookupItem)
            → update_lookup_item may set is ≡ some (r, rs)
            → Q r)
        → update_lookup_item may set is ≡ o
        → (elim o as (λ r. Option (LookupItem × List LookupItem)) [
          | none ↦ none
          | some (r, rs) ↦ some (r, i ∷ rs)
        ])
          ≡ some (j, js)
        → Q j
    later none rest f x = cc
    later (some (r, rs)) rest f x = subst Q (row_of x) (rest r rs f)

-- The row that a transition gives has the id that it names.
transition_lookup_item-id :
    (now : ℕ) (t : Transition) (db : Db) {i : LookupItem} {db' : Db}
    → transition_lookup_item now t db ≡ ok (i, db')
    → i.id ≡ t.id
unfolding transition_lookup_item
transition_lookup_item-id now t db {i} {db'} e =
    found (update_lookup_item (may_change t) (changed_item now t) db.lookup_items) refl e
  where
    first : (a b : Bool) → (a && b) ≡ true → a ≡ true
    first a b x = ground arith

    row_of :
        {j : LookupItem} {d : Db}
        → ◌≡◌ {A = Result (LookupItem × Db)} (ok (j, d)) (ok (i, db'))
        → j ≡ i
    row_of y = cc

    refused : {x : Err} → ◌≡◌ {A = Result (LookupItem × Db)} (err x) (ok (i, db')) → ⊥
    refused y = cc

    found :
        (o : Option (LookupItem × List LookupItem))
        → update_lookup_item (may_change t) (changed_item now t) db.lookup_items ≡ o
        → (elim o as (λ r. Result (LookupItem × Db)) [
          | none ↦ err Err.no_rows
          | some (j, js) ↦
              if provider_message_taken j db.lookup_items
              then err Err.unique_violation
              else ok (j, record db { lookup_items = js })
        ])
          ≡ ok (i, db')
        → i.id ≡ t.id
    found none f x = absurd (refused x)
    found (some (j, js)) f x = elim (Bool-cases (provider_message_taken j db.lookup_items)) [
      | inl taken ↦ absurd (refused (rw taken at x))
      | inr free ↦
          subst (λ k. k.id ≡ t.id) (row_of (rw free at x))
            (update_lookup_item-holds (λ k. k.id ≡ t.id) (may_change t) (changed_item now t)
              db.lookup_items (λ k m. (==_iff k.id t.id).0 (first (k.id == t.id) _ m)) f)
    ]

patching-id :
    (now : ℕ) (item : LookupItem) (n : NormalizedResult) (to : LookupItemStatus)
    (from : List LookupItemStatus) (terminal : Bool)
    → (patching now item n to from terminal).id ≡ item.id
patching-id now item n to from true = refl
patching-id now item n to from false = elim (Bool-cases (status_eq to item_pending)) [
  | inl waits ↦ rw waits refl
  | inr other ↦ rw other refl
]

module _ (id : Uuid) (before : List LookupItem) where
  -- The other rows are as they were.
  abbrev pub Others : LookupWorld → Type 0
  Others w = Rows (Kept id) before w.db.lookup_items

  transition_lookup_item-Others :
      (now : ℕ) (t : Transition) (w : LookupWorld) {i : LookupItem} {db : Db}
      → t.id ≡ id
      → transition_lookup_item now t w.db ≡ ok (i, db)
      → Others w
      → Others (with_db w db)
  transition_lookup_item-Others now t w same_id e p =
      let (is, d, rows) =
        transition_lookup_item-Rows (Kept id) (Kept-refl id) now t w.db
          (λ k m other. own (named k m) other) e in
      rw d (Rows-trans (Kept id) (Kept-trans id) before w.db.lookup_items is p rows)
    where
      first : (a b : Bool) → (a && b) ≡ true → a ≡ true
      first a b x = ground arith

      named : (k : LookupItem) → may_change t k ≡ true → (k.id == id) ≡ true
      named k m = subst (λ x. (k.id == x) ≡ true) same_id (first (k.id == t.id) _ m)

  Marks-Others : (w : LookupWorld) {db : Db} → Marks id w.db db → Others w → Others (with_db w db)
  Marks-Others w {db} (same e) p = rw (e.items) p
  Marks-Others w {db} (marked action cost e j) p = rw e (
      Rows-trans (Kept id) (Kept-trans id) before w.db.lookup_items _ p (
        set_lookup_item_billing_action-Rows (Kept id) (Kept-refl id) action cost id
          w.db.lookup_items λ i here other. own here other))

  settle_terminal-Others :
      (action : Option BillingAction) (w : LookupWorld)
      → Others w
      → Others (settle_terminal action id w)
  unfolding settle_terminal capture_for_lookup_item release_for_lookup_item
  settle_terminal-Others (some release) w p =
      Marks-Others w (settle_lookup_item-Marks id false w.db) p
  settle_terminal-Others (some capture) w p =
      Marks-Others w (settle_lookup_item-Marks id true w.db) p
  settle_terminal-Others none w p = p

  refresh-Others : (now : ℕ) (job : Uuid) (w : LookupWorld) → Others w → Others (refresh now job w)
  unfolding refresh refresh_lookup_job_counters
  refresh-Others now job w p = found _
    where
      found :
          (o : Option (LookupJob × List LookupJob))
          → Others (elim (with_job w.db o) as (λ r. LookupWorld) [
            | none ↦ w
            | some (j, db) ↦ with_db w db
          ])
      found none = p
      found (some (j, js)) = p

  pub on_item_terminal-Others :
      (setup : Setup) (now : ℕ) (item : LookupItem) (action : Option BillingAction)
      (w : LookupWorld)
      → item.id ≡ id
      → Others w
      → Others (on_item_terminal setup now item action w)
  unfolding on_item_terminal enqueue_item
  on_item_terminal-Others setup now item action w e p =
      if_holds Others (not (is_terminal_item item.status)) p (
        if_holds Others (client_is_deleted item.client_id w.db) p (
          refresh-Others now item.job_id _ (
            subst (λ k. Others (settle_terminal (action_or action item) k w)) (sym e)
              (settle_terminal-Others (action_or action item) w p))))

  pub patch_item-Others :
      (now : ℕ) (item : LookupItem) (n : NormalizedResult) (to : LookupItemStatus)
      (from : List LookupItemStatus) (terminal : Bool) (w : LookupWorld) {i : LookupItem} {db : Db}
      → item.id ≡ id
      → patch_item now item n to from terminal w.db ≡ ok (i, db)
      → Others w
      → (i.id ≡ id) × Others (with_db w db)
  unfolding patch_item
  patch_item-Others now item n to from terminal w e f p =
      let named = patching-id now item n to from terminal ∙ e in
      (
        transition_lookup_item-id now _ w.db f ∙ named,
        transition_lookup_item-Others now _ w named f p,
      )
