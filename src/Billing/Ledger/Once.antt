-- ===== src/Billing/Ledger/Once.antt =====
-- An operation that is repeated with its idempotency key changes nothing more.
use sms.Prelude.{
  ◌≤◌, ◌≡◌, refl, sym, inl, inr, Bool, true, false, not, Option, some, none, List, ◌∷◌, arith,
  Bool-cases, if◌then◌else◌, ◌==◌,
}
use sms.Prelude.Int.{ℤ, scale}
use sms.Billing.Rounding.{Decimal, parts}
use sms.Prelude.Text.{Text, text_eq_refl}
use sms.Store.Types.{
  Uuid, Key, hold_sms, debit_sms, release_sms, hold_lookup_job, debit_lookup_item,
  release_lookup_item, release_remainder, topup, adjustment_key, Wallet, WalletTransaction, Db,
  Direction, to_credit,
}
use sms.Store.Errors.{Result, ok, row_or, guard, ok->>=, row_or-ok, wallet_not_found, validation}
use sms.Store.Wallets.{lock_wallet_by_client_id}
use sms.Store.Ledger.{key_eq, get_wallet_tx_by_idempotency}
use sms.Billing.Money.{must_positive, money, apply_hold}
use sms.Billing.Post.{key_used, post_balances, place_hold}
use sms.Billing.Credit.{
  Kind, kind_credit, kind_adjustment, credit_available, post_credit, credit_wallet, TopUpInput,
  AdjustInput, top_up, adjust, given, parse_direction,
}
use sms.Billing.Ledger.Invariant.{Valid}
use sms.Billing.Ledger.Moves.{post_balances-ok}

key_eq_refl : (k : Key) → key_eq k k ≡ true
unfolding key_eq
key_eq_refl (hold_sms a) = ground arith
key_eq_refl (debit_sms a) = ground arith
key_eq_refl (release_sms a) = ground arith
key_eq_refl (hold_lookup_job a) = ground arith
key_eq_refl (debit_lookup_item a) = ground arith
key_eq_refl (release_lookup_item a) = ground arith
key_eq_refl (release_remainder a) = ground arith
key_eq_refl (topup a s) = ground (arith, text_eq_refl s)
key_eq_refl (adjustment_key a s) = ground (arith, text_eq_refl s)

-- The key is taken, and the clients are as before.
pub record Keeps (client : Uuid) (key : Key) (db db' : Db) : Type 0 where
  pub taken : key_used client key db' ≡ true
  pub same_clients : db'.clients ≡ db.clients

first_row_used :
    (t : WalletTransaction) (ts : List WalletTransaction) (client : Uuid) (key : Key)
    → t.client_id ≡ client
    → key_eq t.idempotency_key key ≡ true
    → 1 ≤ t.id
    → (elim (get_wallet_tx_by_idempotency client key (t ∷ ts)) as (λ o. Bool) [
      | none ↦ false
      | some existing ↦ not (existing.id == 0)
    ])
      ≡ true
unfolding get_wallet_tx_by_idempotency
first_row_used t ts client key c k p = ground arith

pub post_balances-Keeps :
    (w : Wallet) (t : WalletTransaction) (db : Db) {db' : Db}
    → Valid db
    → lock_wallet_by_client_id t.client_id db.wallets ≡ some w
    → post_balances w t db ≡ ok db'
    → Keeps t.client_id t.idempotency_key db db'
unfolding key_used
post_balances-Keeps w t db v l h =
    let e = (post_balances-ok w t db v.keyed l h).1 in
    rw e (record {
      taken =
          first_row_used (record t { id = db.next_id }) db.wallet_transactions t.client_id
            t.idempotency_key refl (key_eq_refl t.idempotency_key) v.first;
      same_clients = refl;
    })

-- The test of the key, and what happens when it is not taken.
pub unless_taken :
    (client : Uuid) (key : Key) (r : Result Db) (db : Db) {db' : Db}
    → (if key_used client key db then ok db else r) ≡ ok db'
    → (r ≡ ok db' → Keeps client key db db')
    → Keeps client key db db'
unless_taken client key r db {db'} h k = elim (Bool-cases (key_used client key db)) [
  | inl used ↦ kept used (rw used at h)
  | inr free ↦ k (rw free at h)
]
  where
    kept : key_used client key db ≡ true → Result.ok db ≡ ok db' → Keeps client key db db'
    kept used e = rw (sym (ok_eq e)) (record { taken = used; same_clients = refl })
      where
        ok_eq : Result.ok db ≡ ok db' → db ≡ db'
        ok_eq x = cc

pub place_hold-Keeps :
    (client : Uuid) (key : Key) (amount : ℤ) (currency : Text) (message job : Option Uuid) (db : Db)
    {db' : Db}
    → Valid db
    → place_hold client key amount currency message job db ≡ ok db'
    → Keeps client key db db'
unfolding place_hold
place_hold-Keeps client key amount currency message job db v h =
    ok->>= (row_or wallet_not_found (lock_wallet_by_client_id client db.wallets)) _ h λ w lw h1.
      ok->>= (apply_hold w.available_balance w.held_balance amount) _ h1
        λ b hb h2. post_balances-Keeps w _ db v (row_or-ok wallet_not_found _ lw) h2

credit_wallet-Keeps :
    (client : Uuid) (amt : Decimal) (kind : Kind) (direction : Direction) (key : Key) (db : Db)
    {db' : Db}
    → Valid db
    → credit_wallet client amt kind direction key db ≡ ok db'
    → Keeps client key db db'
unfolding credit_wallet post_credit
credit_wallet-Keeps client amt kind direction key db v h =
    unless_taken client key (post_credit client amt kind direction key db) db h λ h0.
      ok->>= (row_or wallet_not_found (lock_wallet_by_client_id client db.wallets)) _ h0 λ w lw h1.
        ok->>=
          (credit_available kind (scale w.available_balance (parts amt)) amt.numerator direction) _
          h1 λ a ha h2. post_balances-Keeps w _ db v (row_or-ok wallet_not_found _ lw) h2

credit_wallet_again :
    (client : Uuid) (amt : Decimal) (kind : Kind) (direction : Direction) (key : Key) {db db' : Db}
    → Keeps client key db db'
    → credit_wallet client amt kind direction key db' ≡ ok db'
unfolding credit_wallet
credit_wallet_again client amt kind direction key k = rw k.taken refl

-- `new_from_string` is decimal.NewFromString.
module _ (new_from_string : Text → Option Decimal) where
  -- A top-up that has succeeded succeeds again on the database it has left, and changes nothing.
  pub top_up_twice :
      (inp : TopUpInput) (db db' : Db)
      → Valid db
      → top_up new_from_string inp db ≡ ok db'
      → top_up new_from_string inp db' ≡ ok db'
  unfolding top_up
  top_up_twice inp db db' v h = ok->>= (money new_from_string inp.amount) _ h λ amt e h1.
      ok->>= (must_positive amt.numerator) _ h1 λ u e1 h2.
        ok->>= (guard (given inp.idempotency_key) validation) _ h2 λ u' e2 h3.
          rw (e, e1, e2)
            (credit_wallet_again inp.client_id amt kind_credit to_credit
              (topup inp.client_id inp.idempotency_key)
              (credit_wallet-Keeps inp.client_id amt kind_credit to_credit _ db v h3))

  -- So does an adjustment.
  pub adjust_twice :
      (inp : AdjustInput) (db db' : Db)
      → Valid db
      → adjust new_from_string inp db ≡ ok db'
      → adjust new_from_string inp db' ≡ ok db'
  unfolding adjust
  adjust_twice inp db db' v h = ok->>= (money new_from_string inp.amount) _ h λ amt e h1.
      ok->>= (must_positive amt.numerator) _ h1 λ u e1 h2.
        ok->>= (guard (given inp.comment) validation) _ h2 λ u' e2 h3.
          ok->>= (guard (given inp.idempotency_key) validation) _ h3 λ u'' e3 h4.
            rw (e, e1, e2, e3)
              (credit_wallet_again inp.client_id amt (kind_adjustment inp.allow_negative)
                (parse_direction inp.direction) (adjustment_key inp.client_id inp.idempotency_key)
                (credit_wallet-Keeps inp.client_id amt _ _ _ db v h4))
