-- ===== src/Billing/Ledger/Holds.antt =====
-- What the arithmetic of the balances and the search for a hold tell when they succeed.
use mathlib.Core.Path.{subst}
use sms.Prelude.{
  ℕ, ◌<◌, ◌≡◌, refl, sym, ap, ◌∙◌, inl, inr, Bool, true, false, ◌&&◌, ◌||◌, Option, none, some,
  List, [], ◌∷◌, All, arith, any, ◌==◌, if◌then◌else◌, Bool-cases, Option-cases,
}
use sms.Prelude.Int.{ℤ, pos, ◌+ℤ◌, ◌-ℤ◌, ◌≤ℤ◌}
use sms.Store.Types.{Uuid, WalletTransaction}
use sms.Store.Errors.{ok}
use sms.Store.Ledger.{settles, find_oldest, sum_settled_against_hold}
use sms.Billing.Money.{
  must_positive, apply_hold, apply_release, apply_debit_from_hold, apply_adjustment,
  remaining_on_hold,
}
use sms.Billing.Ledger.Invariant.{In, Below, Proper}
use sms.Billing.Ledger.Posting.{In-Below, sum_settled-skips}

or_false : (a b : Bool) → (a || b) ≡ false → (a ≡ false) × (b ≡ false)
or_false a b e = ground arith

some_eq : {a b : WalletTransaction} → ◌≡◌ {A = Option WalletTransaction} (some a) (some b) → a ≡ b
some_eq e = cc

none-some : {a : WalletTransaction} → ◌≡◌ {A = Option WalletTransaction} none (some a) → ⊥
none-some e = cc

module _ (a h amt : ℤ) {b : ℤ × ℤ} where
  pub apply_hold-ok :
      apply_hold a h amt ≡ ok b → (b.0 ≡ a -ℤ amt) × (b.1 ≡ h +ℤ amt) × (pos 0 ≤ℤ b.0)
  unfolding apply_hold
  apply_hold-ok e = ground arith

  pub apply_release-ok :
      apply_release a h amt ≡ ok b → (b.0 ≡ a +ℤ amt) × (b.1 ≡ h -ℤ amt) × (pos 0 ≤ℤ b.1)
  unfolding apply_release
  apply_release-ok e = ground arith

  pub apply_debit_from_hold-ok :
      apply_debit_from_hold a h amt ≡ ok b → (b.0 ≡ a) × (b.1 ≡ h -ℤ amt) × (pos 0 ≤ℤ b.1)
  unfolding apply_debit_from_hold
  apply_debit_from_hold-ok e = ground arith

pub apply_adjustment-ok :
    (a amt : ℤ) (is_debit allow_neg : Bool) {b : ℤ}
    → apply_adjustment a amt is_debit allow_neg ≡ ok b
    → (is_debit ≡ true → b ≡ a -ℤ amt)
      × (is_debit ≡ false → b ≡ a +ℤ amt)
      × (allow_neg ≡ false → pos 0 ≤ℤ b)
unfolding apply_adjustment
apply_adjustment-ok a amt true true e = ground arith
apply_adjustment-ok a amt true false e = ground arith
apply_adjustment-ok a amt false true e = ground arith
apply_adjustment-ok a amt false false e = ground arith

pub must_positive-ok : (d : ℤ) {u : Unit {0}} → must_positive d ≡ ok u → pos 1 ≤ℤ d
unfolding must_positive
must_positive-ok d e = ground arith

pub remaining_on_hold-ok :
    (a s : ℤ) {r : ℤ} → remaining_on_hold a s ≡ ok r → (r ≡ a -ℤ s) × (pos 0 ≤ℤ r)
unfolding remaining_on_hold
remaining_on_hold-ok a s e = ground arith

pub find_oldest-In :
    (p : WalletTransaction → Bool) (ts : List WalletTransaction) {h : WalletTransaction}
    → find_oldest p ts ≡ some h
    → In h ts × (p h ≡ true)
unfolding find_oldest
find_oldest-In p [] e = cc
find_oldest-In p (t ∷ ts) {h} e = elim (Option-cases (find_oldest p ts)) [
  | inl missing ↦ newest (rw missing at e)
  | inr (u, found) ↦ older (find_oldest-In p ts found) (rw found at e)
]
  where
    newest : (if◌then◌else◌ (p t) (some t) none ≡ some h) → In h (t ∷ ts) × (p h ≡ true)
    newest q = elim (Bool-cases (p t)) [
      | inl y ↦ (inl (sym (some_eq (rw y at q))), rw (← some_eq (rw y at q)) y)
      | inr n ↦ absurd (none-some (rw n at q))
    ]

    older :
        {u : WalletTransaction}
        → In u ts × (p u ≡ true)
        → ◌≡◌ {A = Option WalletTransaction} (some u) (some h)
        → In h (t ∷ ts) × (p h ≡ true)
    older r q =
        (inr (subst (λ x. In x ts) (some_eq q) r.0), subst (λ x. p x ≡ true) (some_eq q) r.1)

-- An id stands once.
pub In-unique :
    (n : ℕ) (a b : WalletTransaction) (ts : List WalletTransaction)
    → Below n ts
    → In a ts
    → In b ts
    → a.id ≡ b.id
    → a ≡ b
In-unique n a b [] w i j e = absurd i
In-unique n a b (t ∷ ts) w (inl x) (inl y) e = x ∙ sym y
In-unique n a b (t ∷ ts) w (inl x) (inr j) e =
    absurd (omega (arith, In-Below t.id b ts w.1 j, ap (λ (u : WalletTransaction). u.id) x))
In-unique n a b (t ∷ ts) w (inr i) (inl y) e =
    absurd (omega (arith, In-Below t.id a ts w.1 i, ap (λ (u : WalletTransaction). u.id) y))
In-unique n a b (t ∷ ts) w (inr i) (inr j) e = In-unique t.id a b ts w.1 i j e

pub In-Proper :
    (exact : Bool) (a : WalletTransaction) (ts : List WalletTransaction)
    → All (Proper exact) ts
    → In a ts
    → Proper exact a
In-Proper exact a [] w i = absurd i
In-Proper exact a (t ∷ ts) w (inl e) = rw e w.0
In-Proper exact a (t ∷ ts) w (inr i) = In-Proper exact a ts w.1 i

-- A hold that no row settles has nothing settled against it.
pub any-settles-sum :
    (k : Uuid) (ts : List WalletTransaction)
    → any (settles k) ts ≡ false
    → sum_settled_against_hold k ts ≡ pos 0
any-settles-sum k [] e = unfold sum_settled_against_hold in refl
any-settles-sum k (t ∷ ts) e =
    sum_settled-skips k t ts (or_false _ _ e).0 ∙ any-settles-sum k ts (or_false _ _ e).1

-- A row with the id of a hold of the ledger is that hold.
pub covers_same :
    (n : ℕ) (t i : WalletTransaction) (amt : ℤ) (ts : List WalletTransaction)
    → Below n ts
    → In t ts
    → In i ts
    → t.id ≡ i.id
    → sum_settled_against_hold t.id ts +ℤ amt ≤ℤ t.amount
    → sum_settled_against_hold i.id ts +ℤ amt ≤ℤ i.amount
covers_same n t i amt ts w a b e h =
    subst (λ (x : WalletTransaction). sum_settled_against_hold x.id ts +ℤ amt ≤ℤ x.amount)
      (In-unique n t i ts w a b e) h

pub linked-Below :
    (n k : ℕ) (t : WalletTransaction) (ts : List WalletTransaction)
    → Below n ts
    → In t ts
    → ◌≡◌ {A = Option Uuid} (some t.id) (some k)
    → k < n
linked-Below n k t ts w a e = ground (arith, In-Below n t ts w a)

pub settles-id : (k j : Uuid) (b : Bool) → ((k == j) && b) ≡ true → k ≡ j
settles-id k j b e = ground arith
