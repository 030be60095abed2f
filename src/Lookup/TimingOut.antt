-- ===== src/Lookup/TimingOut.antt =====
-- An item that waits too long is failed.
use mathlib.Core.Path.{subst}
use sms.Prelude.{
  ℕ, ◌≡◌, refl, Bool, true, false, ◌&&◌, some, List, [], ◌∷◌, In, at_head, in_tail, in_cons, any,
  inl, inr, arith, Bool-cases, ◌==◌, ==_iff,
}
use sms.Prelude.Text.{Text}
use sms.Store.Types.{LookupItem, LookupItemStatus, release, item_failed}
use sms.Store.Errors.{ok}
use sms.Lookup.State.{status_eq, is_terminal_item}
use sms.Lookup.Apply.{is_blank, deref}
use sms.Lookup.Items.{
  Transition, changed_item, may_change, update_lookup_item, provider_message_taken,
  transition_lookup_item,
}
use sms.Lookup.World.{LookupWorld, Outside, Setup, View, client_is_deleted}
use sms.Lookup.Ending.{with_db, failing, fail_item, open_statuses}
use sms.Lookup.Worker.{poll_item, has_timed_out}
use sms.Lookup.Closed.{failing-Allowed}
use sms.Lookup.ClosedEndings.{on_item_terminal-Closed}
use sms.Lookup.Steps.{Step, Step-refl, Steps, Steps-refl, Reaches-ended}
use sms.Lookup.Changes.{update_lookup_item-Rows, changed-Step}
use sms.Lookup.Unique.{UniqueIds, same_row, Steps-UniqueIds}
use sms.Lookup.Forward.{GoesOn, GoesOn-Closed}

-- The row that a row has become.
pub Steps-In :
    (is js : List LookupItem) {i : LookupItem}
    → Steps is js
    → In i is
    → (j : LookupItem) × In j js × Step i j
Steps-In [] js s h = elim h [ ]
Steps-In (k ∷ is) [] s h = absurd s
Steps-In (k ∷ is) (l ∷ js) s h =
    in_cons (λ x. (j : LookupItem) × In j (l ∷ js) × Step x j) (l, at_head, s.0)
      (λ y. let (j, there, t) = Steps-In is js s.1 y in (j, in_tail there, t)) h

-- The rows of the table that a change may touch are one, and the change touches it.
update_lookup_item-In :
    (may : LookupItem → Bool) (set : LookupItem → LookupItem) (is : List LookupItem)
    {i : LookupItem}
    → In i is
    → may i ≡ true
    → (k : LookupItem) × (js : List LookupItem) × (update_lookup_item may set is ≡ some (set k, js))
      × (may k ≡ true)
      × In k is
      × In (set k) js
unfolding update_lookup_item
update_lookup_item-In may set [] h m = elim h [ ]
update_lookup_item-In may set (l ∷ is) {i} h m = elim (Bool-cases (may l)) [
  | inl here ↦ (l, set l ∷ is, rw (update_lookup_item, here) refl, here, at_head, at_head)
  | inr there ↦
      let (k, js, e, mk, ink, inset) = update_lookup_item-In may set is (rest h there m) m in
      (k, l ∷ js, rw (update_lookup_item, there, e) refl, mk, in_tail ink, in_tail inset)
]
  where
    rest : In i (l ∷ is) → may l ≡ false → may i ≡ true → In i is
    rest x f t = in_cons (λ y. may y ≡ true → In y is) (λ u. absurd (true_false u f)) (λ y u. y) x t
      where
        true_false : {b : Bool} → b ≡ true → b ≡ false → ⊥
        true_false a b = cc

open_status :
    (s : LookupItemStatus) → is_terminal_item s ≡ false → any (status_eq s) open_statuses ≡ true
unfolding is_terminal_item
open_status s e = ground arith

module _ (setup : Setup) (now : ℕ) (item : LookupItem) (code message : Text) (w : LookupWorld)
    (unique : UniqueIds w.db.lookup_items) (there : In item w.db.lookup_items)
    (waits : is_terminal_item item.status ≡ false)
    (alive : client_is_deleted item.client_id w.db ≡ false)
    (own_id : provider_message_taken item w.db.lookup_items ≡ false) where
  abbrev fails : Transition
  fails = failing now item.id code message

  may_fail : may_change fails item ≡ true
  may_fail =
      both (item.id == item.id) _ ((==_iff item.id item.id).1 refl) (open_status item.status waits)
    where
      both : (a b : Bool) → a ≡ true → b ≡ true → (a && b) ≡ true
      both a b x y = ground arith

  -- The row, and the table it stands in.
  failed_row :
      (js : List LookupItem) × (update_lookup_item
          (may_change fails)
          (changed_item now fails)
          w.db.lookup_items
        ≡ some (changed_item now fails item, js))
      × In (changed_item now fails item) js
  failed_row =
      let (k, js, e, mk, ink, inset) =
        update_lookup_item-In (may_change fails) (changed_item now fails) w.db.lookup_items there
          may_fail in
      own k js (same_row k item w.db.lookup_items unique ink there (first _ _ mk)) e inset
    where
      first : (a b : Bool) → (a && b) ≡ true → a ≡ true
      first a b x = ground arith

      own :
          (k : LookupItem) (js : List LookupItem)
          → k ≡ item
          → update_lookup_item (may_change fails) (changed_item now fails) w.db.lookup_items
            ≡ some (changed_item now fails k, js)
          → In (changed_item now fails k) js
          → (rs : List LookupItem) × (update_lookup_item
                (may_change fails)
                (changed_item now fails)
                w.db.lookup_items
              ≡ some (changed_item now fails item, rs))
            × In (changed_item now fails item) rs
      own k js q e h =
          subst
            (λ x.
              (rs : List LookupItem) × (update_lookup_item (may_change fails)
                  (changed_item now fails) w.db.lookup_items
                ≡ some (changed_item now fails x, rs))
              × In (changed_item now fails x) rs)
            q (js, e, h)

  failed_transition :
      (js : List LookupItem)
      → update_lookup_item (may_change fails) (changed_item now fails) w.db.lookup_items
        ≡ some (changed_item now fails item, js)
      → transition_lookup_item now fails w.db
        ≡ ok (changed_item now fails item, record (w.db) { lookup_items = js })
  unfolding transition_lookup_item
  failed_transition js e = rw (transition_lookup_item, e, own_id) refl

  -- An item that may fail is failed.
  pub fail_item-fails :
      (j : LookupItem) × In j (fail_item setup now item code message w).db.lookup_items
      × (j.id ≡ item.id)
      × (j.status ≡ item_failed)
  unfolding fail_item is_terminal_item
  fail_item-fails =
      let (js, e, h) = failed_row in
      let s =
        update_lookup_item-Rows Step Step-refl (may_change fails) (changed_item now fails)
          w.db.lookup_items
          (λ k m. changed-Step now fails k (failing-Allowed now item.id code message) m) e in
      let u = Steps-UniqueIds w.db.lookup_items js s unique in
      let after =
        on_item_terminal-Closed (GoesOn js u) (GoesOn-Closed js u) setup now
          (changed_item now fails item) (some release)
          (with_db w (record (w.db) { lookup_items = js })) (Steps-refl js) in
      let (j, inj, t) = Steps-In js _ after h in
      rw (fail_item, alive, failed_transition js e)
        (j, inj, t.same_id, Reaches-ended t.forward refl)

-- Where no id repeats and no other row has the item's provider id, an item of the table that is open,
-- has a provider id, and whose client is not deleted, is failed by a poll once it has waited for the
-- timeout or was asked for 120 times.
pub poll_item-times_out :
    (setup : Setup) (view : View) (now : ℕ) (out : Outside) (item : LookupItem) (w : LookupWorld)
    → UniqueIds w.db.lookup_items
    → In item w.db.lookup_items
    → is_terminal_item item.status ≡ false
    → client_is_deleted item.client_id w.db ≡ false
    → provider_message_taken item w.db.lookup_items ≡ false
    → is_blank (deref item.provider_message_id) ≡ false
    → has_timed_out view now item ≡ true
    → (j : LookupItem) × In j (poll_item setup view now out item w).db.lookup_items
      × (j.id ≡ item.id)
      × (j.status ≡ item_failed)
unfolding poll_item
poll_item-times_out setup view now out item w unique there waits alive own filled over =
    rw (poll_item, waits, filled, over)
      (fail_item-fails setup now item _ _ w unique there waits alive own)
