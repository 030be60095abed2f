-- ===== src/Lookup/Settling.antt =====
-- What a settlement changes of the items: the billing columns of one of them.
use mathlib.Core.Path.{subst}
use sms.Prelude.{
  ◌≡◌, refl, sym, ap, ◌∙◌, inl, inr, Bool, ◌||◌, not, Option, none, some, any, Bool-cases, ◌==◌,
  ==_iff, List, [], ◌∷◌, if◌then◌else◌,
}
use sms.Prelude.Int.{ℤ, ltb_ℤ}
use sms.Store.Types.{Uuid, BillingAction, Wallet, WalletTransaction, LookupItem, Db}
use sms.Store.Errors.{
  Result, ok, err, row_or, guard, ok->>=, row_or-ok, if-ok, none-ok, no_rows, unique_violation,
  price_snapshot_missing, hold_not_found, invalid_amount,
}
use sms.Store.Wallets.{lock_wallet_by_client_id, update_wallet_balances}
use sms.Store.Ledger.{
  has_key, insert_wallet_transaction, get_lookup_job_hold, sum_settled_against_hold,
}
use sms.Store.Rows.{
  get_lookup_item, set_lookup_item_billing_action, count_lookup_items_blocking_remainder,
}
use sms.Billing.Money.{must_positive, remaining_on_hold, hold_is_open, apply_release}
use sms.Billing.Post.{client_deleted, key_used, post_balances}
use sms.Billing.Sms.{settle_balances, settle_billing_action, or_same}
use sms.Billing.Lookup.{
  item_key, item_cost, mark_lookup_item_posted, settle_item_share, settle_priced_item, same_action,
  settle_lookup_item_once, settle_lookup_item, lookup_remainder_blocked, release_remaining,
  release_hold_remainder, release_lookup_job_remainder_once, release_lookup_job_remainder,
}
use sms.Billing.Ledger.RemainderMoves.{retry_lem}

pub record SameRows (db db' : Db) : Type 0 where
  pub items : db'.lookup_items ≡ db.lookup_items
  pub jobs : db'.lookup_jobs ≡ db.lookup_jobs

SameRows-refl : (db : Db) → SameRows db db
SameRows-refl db = record { items = refl; jobs = refl }

-- The jobs are as before, and the items too, or the one with the id has its billing columns set.
pub data Marks (id : Uuid) (db db' : Db) : Type 0 where
  same : SameRows db db' → Marks id db db'
  marked :
      (action : BillingAction) (cost : Option ℤ)
      → db'.lookup_items ≡ set_lookup_item_billing_action action cost id db.lookup_items
      → db'.lookup_jobs ≡ db.lookup_jobs
      → Marks id db db'

insert-items :
    (t : WalletTransaction) (db : Db) {db' : Db}
    → insert_wallet_transaction t db ≡ ok db'
    → SameRows db db'
unfolding insert_wallet_transaction
insert-items t db e =
    elim (Bool-cases (any (has_key t.client_id t.idempotency_key) db.wallet_transactions)) [
      | inl taken ↦ absurd (refused (rw taken at e))
      | inr free ↦ record { items = items_of (rw free at e); jobs = jobs_of (rw free at e) }
    ]
  where
    refused : {d : Db} → ◌≡◌ {A = Result Db} (err unique_violation) (ok d) → ⊥
    refused x = cc

    items_of : {c d : Db} → Result.ok c ≡ ok d → d.lookup_items ≡ c.lookup_items
    items_of x = cc

    jobs_of : {c d : Db} → Result.ok c ≡ ok d → d.lookup_jobs ≡ c.lookup_jobs
    jobs_of x = cc

post_balances-items :
    (w : Wallet) (t : WalletTransaction) (db : Db) {db' : Db}
    → post_balances w t db ≡ ok db'
    → SameRows db db'
unfolding post_balances
post_balances-items w t db e =
    ok->>=
      (row_or no_rows (
        update_wallet_balances t.balance_after_available t.balance_after_held w.id w.version
          db.wallets))
      _ e
      λ ws e1 h.
        let s = insert-items t (record db { wallets = ws }) h in
        record { items = s.items; jobs = s.jobs }

ok-Marks : {id : Uuid} {db d db' : Db} → Marks id db d → Result.ok d ≡ ok db' → Marks id db db'
ok-Marks {id} {db} {d} {db'} m e = rw (same_db e) m
  where
    same_db : Result.ok d ≡ ok db' → db' ≡ d
    same_db x = cc

settle_item_share-Marks :
    (item : LookupItem) (share : ℤ) (is_capture : Bool) (db : Db) {db' : Db}
    → settle_item_share item share is_capture db ≡ ok db'
    → Marks item.id db db'
unfolding settle_item_share mark_lookup_item_posted
settle_item_share-Marks item share is_capture db h =
    ok->>= (row_or hold_not_found (get_lookup_job_hold item.job_id db.wallet_transactions)) _ h
      λ t e0 h0.
        ok->>= (remaining_on_hold t.amount (sum_settled_against_hold t.id db.wallet_transactions)) _
          h0
          λ r e1 h1. ok->>= (guard (not (ltb_ℤ r share)) invalid_amount) _ h1 λ u e2 h2.
            ok->>= (row_or no_rows (lock_wallet_by_client_id item.client_id db.wallets)) _ h2
              λ w e3 h3.
                ok->>= (settle_balances is_capture w.available_balance w.held_balance share) _ h3
                  λ b e4 h4. ok->>= (post_balances w _ db) _ h4 λ d e5 h5.
                    ok-Marks
                      (marked (settle_billing_action is_capture) (item_cost is_capture share)
                        (ap
                          (set_lookup_item_billing_action (settle_billing_action is_capture)
                            (item_cost is_capture share) item.id)
                          (post_balances-items w _ db e5).items)
                        (post_balances-items w _ db e5).jobs)
                      h5

settle_priced_item-Marks :
    (item : LookupItem) (is_capture : Bool) (db : Db) {db' : Db}
    → settle_priced_item item is_capture db ≡ ok db'
    → Marks item.id db db'
unfolding settle_priced_item mark_lookup_item_posted
settle_priced_item-Marks item is_capture db h =
    ok->>= (row_or price_snapshot_missing item.unit_sell_price) _ h λ share e h1.
      ok->>= (must_positive share) _ h1 λ u e1 h2.
        elim (Bool-cases (key_used item.client_id (item_key is_capture item.id) db)) [
          | inl used ↦ ok-Marks (marked _ _ refl refl) (rw used at h2)
          | inr unused ↦ settle_item_share-Marks item share is_capture db (rw unused at h2)
        ]

open_item-Marks :
    (item : LookupItem) (action : Option BillingAction) (is_capture : Bool) (db : Db) {db' : Db}
    → (elim action [
      | some a ↦ if same_action is_capture a then ok db else err invalid_amount
      | none ↦ settle_priced_item item is_capture db
    ])
      ≡ ok db'
    → Marks item.id db db'
open_item-Marks item (some a) is_capture db h =
    if-ok (same_action is_capture a) (err invalid_amount) (Marks item.id db) h
      (λ is. same (SameRows-refl db)) λ other e. cc
open_item-Marks item none is_capture db h = settle_priced_item-Marks item is_capture db h

-- What is found has the id.
pub get_lookup_item-id :
    (id : Uuid) (is : List LookupItem) {i : LookupItem} → get_lookup_item id is ≡ some i → i.id ≡ id
unfolding get_lookup_item
get_lookup_item-id id [] e = cc
get_lookup_item-id id (k ∷ ks) {i} e = elim (Bool-cases (k.id == id)) [
  | inl here ↦ subst (λ j. j.id ≡ id) (row_of (rw here at e)) ((==_iff k.id id).0 here)
  | inr there ↦ get_lookup_item-id id ks (rw there at e)
]
  where
    row_of : {j : LookupItem} → Option.some j ≡ some i → j ≡ i
    row_of x = cc

settle_lookup_item_once-Marks :
    (id : Uuid) (is_capture : Bool) (db : Db) {db' : Db}
    → settle_lookup_item_once id is_capture db ≡ ok db'
    → Marks id db db'
unfolding settle_lookup_item_once
settle_lookup_item_once-Marks id is_capture db {db'} h =
    ok->>= (row_or no_rows (get_lookup_item id db.lookup_items)) _ h λ item e h1.
      let own = get_lookup_item-id id db.lookup_items (row_or-ok no_rows _ e) in
      if-ok (client_deleted item.client_id db) _ (Marks id db) h1 (λ gone. same (SameRows-refl db))
        λ there h2.
          subst (λ k. Marks k db db') own
            (open_item-Marks item item.billing_action is_capture db h2)

or_same-Marks :
    (id : Uuid) (db : Db) (r : Result Db)
    → ((db' : Db) → r ≡ ok db' → Marks id db db')
    → Marks id db (or_same db r)
or_same-Marks id db (ok d) k = k d refl
or_same-Marks id db (err e) k = same (SameRows-refl db)

-- A settlement of an item changes at most its billing columns.
pub settle_lookup_item-Marks :
    (id : Uuid) (is_capture : Bool) (db : Db)
    → Marks id db (or_same db (settle_lookup_item id is_capture db))
unfolding settle_lookup_item
settle_lookup_item-Marks id is_capture db =
    or_same-Marks id db (settle_lookup_item id is_capture db) λ db' h.
      settle_lookup_item_once-Marks id is_capture db
        (sym (retry_lem 4 (settle_lookup_item_once id is_capture) db) ∙ h)

release_remaining-Marks :
    (id : Uuid) (t : WalletTransaction) (job : Uuid) (r : ℤ) (db : Db) {db' : Db}
    → release_remaining t job r db ≡ ok db'
    → Marks id db db'
unfolding release_remaining
release_remaining-Marks id t job r db h =
    ok->>= (row_or no_rows (lock_wallet_by_client_id t.client_id db.wallets)) _ h λ w e h1.
      ok->>= (apply_release w.available_balance w.held_balance r) _ h1
        λ b e1 h2. same (post_balances-items w _ db h2)

release_lookup_job_remainder_once-Marks :
    (id job : Uuid) (db : Db) {db' : Db}
    → release_lookup_job_remainder_once job db ≡ ok db'
    → Marks id db db'
unfolding release_lookup_job_remainder_once release_hold_remainder
release_lookup_job_remainder_once-Marks id job db h =
    if-ok (lookup_remainder_blocked (count_lookup_items_blocking_remainder job db.lookup_items)) _
      (Marks id db) h (λ blocked. same (SameRows-refl db))
      λ free h1.
        none-ok (get_lookup_job_hold job db.wallet_transactions) _ (Marks id db) h1
          (same (SameRows-refl db))
          λ t found h2.
            if-ok (client_deleted t.client_id db) _ (Marks id db) h2
              (λ gone. same (SameRows-refl db))
              λ there h3.
                ok->>=
                  (remaining_on_hold t.amount
                    (sum_settled_against_hold t.id db.wallet_transactions))
                  _ h3
                  λ r e h4.
                    if-ok (not (hold_is_open r) || key_used t.client_id _ db) _ (Marks id db) h4
                      (λ over. same (SameRows-refl db))
                      λ runs h5. release_remaining-Marks id t job r db h5

-- The release of a job's remainder leaves the items.
pub release_lookup_job_remainder-Marks :
    (id job : Uuid) (db : Db) → Marks id db (or_same db (release_lookup_job_remainder job db))
unfolding release_lookup_job_remainder
release_lookup_job_remainder-Marks id job db =
    or_same-Marks id db (release_lookup_job_remainder job db) λ db' h.
      release_lookup_job_remainder_once-Marks id job db
        (sym (retry_lem 4 (release_lookup_job_remainder_once job) db) ∙ h)

pub Marks-jobs : {id : Uuid} {db db' : Db} → Marks id db db' → db'.lookup_jobs ≡ db.lookup_jobs
Marks-jobs (same s) = s.jobs
Marks-jobs (marked action cost e j) = j
