-- ===== src/Billing/Ledger/Placing.antt =====
-- When a hold goes through: the key is free and the wallet has the amount.
use sms.Prelude.{
  ℕ, suc, ◌+◌, ◌≤◌, ◌≡◌, refl, ◌∙◌, inl, inr, Bool, true, false, not, Option, some, none, List, [],
  ◌∷◌, All, any, arith, Bool-cases, ◌==◌,
}
use sms.Prelude.Int.{ℤ, ◌+ℤ◌, ◌-ℤ◌, ltb_ℤ}
use sms.Prelude.Text.{Text, trim_space}
use sms.Store.Types.{Uuid, Key, Wallet, WalletTransaction, Db, hold}
use sms.Store.Errors.{ok}
use sms.Store.Wallets.{
  Keyed, get_wallet_by_client_id, lock_wallet_by_client_id, put_balances, update-locked,
}
use sms.Store.Ledger.{has_key, get_wallet_tx_by_idempotency, insert_wallet_transaction}
use sms.Billing.Money.{apply_hold}
use sms.Billing.Post.{key_used, post_balances, place_hold}
use sms.Billing.Ledger.Invariant.{Valid, Proper}

-- The wallet with its new balances.
abbrev pub rebalanced : Wallet → ℤ → ℤ → Wallet
rebalanced w a b = record w { available_balance = a; held_balance = b; version = w.version + 1 }

get-put_own :
    (client : Uuid) (a b : ℤ) (w : Wallet) (ws : List Wallet)
    → lock_wallet_by_client_id client ws ≡ some w
    → get_wallet_by_client_id client (put_balances client a b ws) ≡ some (rebalanced w a b)
unfolding lock_wallet_by_client_id get_wallet_by_client_id put_balances
get-put_own client a b w [] e = cc
get-put_own client a b w (u ∷ ws) e = ground (arith, get-put_own client a b w ws)

lock_get :
    (client : Uuid) (ws : List Wallet)
    → lock_wallet_by_client_id client ws ≡ get_wallet_by_client_id client ws
unfolding lock_wallet_by_client_id get_wallet_by_client_id
lock_get client ws = refl

-- A key that is not used stands in no row.
unused_key :
    (client : Uuid) (key : Key) (ts : List WalletTransaction)
    → All (Proper true) ts
    → (elim (get_wallet_tx_by_idempotency client key ts) as (λ o. Bool) [
      | none ↦ false
      | some existing ↦ not (existing.id == 0)
    ])
      ≡ false
    → any (has_key client key) ts ≡ false
unfolding get_wallet_tx_by_idempotency
unused_key client key [] p e = refl
unused_key client key (t ∷ ts) p e = elim (Bool-cases (has_key client key t)) [
  | inl here ↦ rw here (no_zero_id t.id p.0.0 (rw here at e))
  | inr there ↦ rw there (unused_key client key ts p.1 (rw there at e))
]
  where
    no_zero_id : (n : ℕ) → 1 ≤ n → not (n == 0) ≡ false → true ≡ false
    no_zero_id n h z = ground arith

post_balances_goes :
    (w : Wallet) (t : WalletTransaction) (db : Db)
    → Keyed db.wallets
    → lock_wallet_by_client_id t.client_id db.wallets ≡ some w
    → any (has_key t.client_id t.idempotency_key) db.wallet_transactions ≡ false
    → (db' : Db) × (post_balances w t db ≡ ok db')
      × (db'.wallets
          ≡ put_balances t.client_id t.balance_after_available t.balance_after_held db.wallets)
unfolding post_balances insert_wallet_transaction
post_balances_goes w t db k l free = (
  record db {
    wallets = put_balances t.client_id t.balance_after_available t.balance_after_held db.wallets;
    wallet_transactions = record t { id = db.next_id } ∷ db.wallet_transactions;
    next_id = suc db.next_id;
  },
  rw
      (
        update-locked t.client_id w t.balance_after_available t.balance_after_held db.wallets k l,
        free,
      )
      refl,
  refl,
)

afforded : (a h amt : ℤ) → ltb_ℤ a amt ≡ false → apply_hold a h amt ≡ ok (a -ℤ amt, h +ℤ amt)
unfolding apply_hold ◌-ℤ◌ ◌+ℤ◌
afforded a h amt e = ground arith

pub place_hold_goes :
    (client : Uuid) (key : Key) (amount : ℤ) (currency : Text) (message job : Option Uuid) (db : Db)
    (w : Wallet)
    → Valid db
    → get_wallet_by_client_id client db.wallets ≡ some w
    → ltb_ℤ w.available_balance amount ≡ false
    → key_used client key db ≡ false
    → (db' : Db) × (place_hold client key amount currency message job db ≡ ok db')
      × (get_wallet_by_client_id client db'.wallets
          ≡ some (rebalanced w (w.available_balance -ℤ amount) (w.held_balance +ℤ amount)))
unfolding place_hold key_used
place_hold_goes client key amount currency message job db w v found enough free =
    let locked = lock_get client db.wallets ∙ found in
    let t : WalletTransaction = record {
      id = 0;
      wallet_id = w.id;
      client_id = client;
      type = hold;
      amount = amount;
      currency = trim_space currency;
      balance_after_available = w.available_balance -ℤ amount;
      balance_after_held = w.held_balance +ℤ amount;
      related_hold_id = none;
      sms_message_id = message;
      lookup_job_id = job;
      lookup_item_id = none;
      idempotency_key = key;
      direction = none;
    } in
    let (db', posted, wallets) =
      post_balances_goes w t db v.keyed locked
        (unused_key client key db.wallet_transactions v.proper free) in
    (
      db',
      rw (locked, afforded w.available_balance w.held_balance amount enough) posted,
      rw wallets (get-put_own client _ _ w db.wallets locked),
    )
