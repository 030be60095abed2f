-- ===== src/Billing/Ledger/Moves.antt =====
-- Every step of billing leaves the ledger alone or makes one posting; either keeps the invariant.
use mathlib.Core.Path.{subst}
use sms.Prelude.{
  ℕ, suc, ◌<◌, ◌≡◌, refl, ap, ◌∙◌, Bool, true, false, Option, none, some, List, [], ◌∷◌, arith, any,
  if◌then◌else◌,
}
use sms.Prelude.Int.{pos, ◌+ℤ◌, ◌≤ℤ◌}
use sms.Store.Types.{Uuid, Wallet, WalletTransaction, Db, is_hold}
use sms.Store.Errors.{Result, ok}
use sms.Store.Wallets.{Keyed, lock_wallet_by_client_id, put_balances, update-locked}
use sms.Store.Ledger.{has_key, settles, sum_settled_against_hold, insert_wallet_transaction}
use sms.Billing.Post.{post_balances}
use sms.Billing.Ledger.Sums.{available_delta, held_delta}
use sms.Billing.Ledger.Invariant.{In, Valid, ValidIf, Below}
use sms.Billing.Ledger.Posting.{Posted, Posted-if, Posted-Valid}

pub data Moves (db db' : Db) : Type 0 where
  stays :
      db'.wallets ≡ db.wallets
      → db'.wallet_transactions ≡ db.wallet_transactions
      → db'.next_id ≡ db.next_id
      → Moves db db'
  posts : (w : Wallet) (t : WalletTransaction) → Posted w t db db' → Moves db db'

pub Moves-Valid : {exact : Bool} {db db' : Db} → ValidIf exact db → Moves db db' → ValidIf exact db'
Moves-Valid v (stays ws ts n) = record {
  keyed = rw ws v.keyed;
  first = rw n v.first;
  ids = rw (n, ts) v.ids;
  proper = rw ts v.proper;
  linked = rw ts v.linked;
  balanced = rw (ws, ts) v.balanced;
  covered = rw ts v.covered;
}
Moves-Valid v (posts w t p) = Posted-Valid v (Posted-if p)

Below-more : (n : ℕ) (ts : List WalletTransaction) → Below n ts → Below (suc n) ts
Below-more n [] b = tt
Below-more n (t ∷ ts) b = (omega (arith, b.0), b.1)

-- A row of another table takes an id.
pub next-Valid :
    {db db' : Db}
    → db'.wallets ≡ db.wallets
    → db'.wallet_transactions ≡ db.wallet_transactions
    → db'.next_id ≡ suc db.next_id
    → Valid db
    → Valid db'
next-Valid {db} {db'} ws ts n v = record {
  keyed = rw ws v.keyed;
  first = rw n (omega arith);
  ids = rw (n, ts) (Below-more db.next_id db.wallet_transactions v.ids);
  proper = rw ts v.proper;
  linked = rw ts v.linked;
  balanced = rw (ws, ts) v.balanced;
  covered = rw ts v.covered;
}

-- What a posting that goes through has done.
pub post_balances-ok :
    (w : Wallet) (t : WalletTransaction) (db : Db) {db' : Db}
    → Keyed db.wallets
    → lock_wallet_by_client_id t.client_id db.wallets ≡ some w
    → post_balances w t db ≡ ok db'
    → (any (has_key t.client_id t.idempotency_key) db.wallet_transactions ≡ false)
      × (db' ≡ record db {
        wallets =
            put_balances t.client_id t.balance_after_available t.balance_after_held db.wallets;
        wallet_transactions = record t { id = db.next_id } ∷ db.wallet_transactions;
        next_id = suc db.next_id;
      })
unfolding post_balances insert_wallet_transaction
post_balances-ok w t db {db'} k l h = posted (
    rw (update-locked t.client_id w t.balance_after_available t.balance_after_held db.wallets k l)
      at h)
  where
    posted :
        insert_wallet_transaction t (record db {
          wallets =
              put_balances t.client_id t.balance_after_available t.balance_after_held db.wallets;
        })
          ≡ ok db'
        → (any (has_key t.client_id t.idempotency_key) db.wallet_transactions ≡ false)
          × (db' ≡ record db {
            wallets =
                put_balances t.client_id t.balance_after_available t.balance_after_held db.wallets;
            wallet_transactions = record t { id = db.next_id } ∷ db.wallet_transactions;
            next_id = suc db.next_id;
          })
    posted e = ground arith

-- The balances of a row follow from the wallet's and the row's amount.
pub record Follows (w : Wallet) (t : WalletTransaction) : Type 0 where
  pub amount_positive : pos 1 ≤ℤ t.amount
  pub available_moves :
      t.balance_after_available ≡ w.available_balance +ℤ available_delta t.type t.direction t.amount
  pub held_moves : t.balance_after_held ≡ w.held_balance +ℤ held_delta t.type t.amount
  pub held_stays : pos 0 ≤ℤ w.held_balance → pos 0 ≤ℤ t.balance_after_held

-- What a row may settle.
abbrev pub Covers : WalletTransaction → List WalletTransaction → Type 0
Covers t txs =
    (h : WalletTransaction)
    → In h txs
    → is_hold h.type ≡ true
    → settles h.id t ≡ true
    → sum_settled_against_hold h.id txs +ℤ t.amount ≤ℤ h.amount

pub post_balances-Moves :
    (w : Wallet) (t : WalletTransaction) (db : Db) {db' : Db} {exact : Bool}
    → ValidIf exact db
    → lock_wallet_by_client_id t.client_id db.wallets ≡ some w
    → Follows w t
    → ((k : Uuid) → t.related_hold_id ≡ some k → k < db.next_id)
    → Covers t db.wallet_transactions
    → post_balances w t db ≡ ok db'
    → Moves db db'
post_balances-Moves w t db v l f b c h =
    let (new, e) = post_balances-ok w t db v.keyed l h in
    posts w (record t { id = db.next_id })
      (rw e (record {
        locked = l;
        wallets_after = refl;
        rows_after = refl;
        next_after = refl;
        new_id = refl;
        new_key = new;
        amount_positive = f.amount_positive;
        available_moves = f.available_moves;
        held_moves = f.held_moves;
        held_stays = f.held_stays;
        linked_back = b;
        covers = c;
      }))

pub same-Moves : {db db' : Db} → Result.ok db ≡ ok db' → Moves db db'
same-Moves {db} {db'} e = kept (ok_eq e)
  where
    ok_eq : Result.ok db ≡ ok db' → db' ≡ db
    ok_eq x = cc

    kept : db' ≡ db → Moves db db'
    kept x =
        stays (ap (λ (d : Db). d.wallets) x) (ap (λ (d : Db). d.wallet_transactions) x)
          (ap (λ (d : Db). d.next_id) x)

-- An early return leaves the database alone.
pub if-Moves :
    (c : Bool) (r : Result Db) {db db' : Db}
    → (if c then ok db else r) ≡ ok db'
    → (c ≡ false → r ≡ ok db' → Moves db db')
    → Moves db db'
if-Moves true r e k = same-Moves e
if-Moves false r e k = k refl e

pub none-Moves {ℓ} :
    {A : Type ℓ} (o : Option A) (f : A → Result Db) {db db' : Db}
    → (elim o [ none ↦ ok db | some a ↦ f a ]) ≡ ok db'
    → ((a : A) → o ≡ some a → f a ≡ ok db' → Moves db db')
    → Moves db db'
none-Moves none f e k = same-Moves e
none-Moves (some a) f e k = k a refl e

-- What changes neither wallets nor ledger may follow a move.
pub Moves-then :
    {db d db' : Db}
    → Moves db d
    → db'.wallets ≡ d.wallets
    → db'.wallet_transactions ≡ d.wallet_transactions
    → db'.next_id ≡ d.next_id
    → Moves db db'
Moves-then (stays a b c) ws ts n = stays (ws ∙ a) (ts ∙ b) (n ∙ c)
Moves-then (posts w t p) ws ts n = posts w t (record {
  locked = p.locked;
  wallets_after = ws ∙ p.wallets_after;
  rows_after = ts ∙ p.rows_after;
  next_after = n ∙ p.next_after;
  new_id = p.new_id;
  new_key = p.new_key;
  amount_positive = p.amount_positive;
  available_moves = p.available_moves;
  held_moves = p.held_moves;
  held_stays = p.held_stays;
  linked_back = p.linked_back;
  covers = p.covers;
})

pub Moves-refl : (db : Db) → Moves db db
Moves-refl db = stays refl refl refl

-- A result that is already known.
pub ok-Moves : {db d db' : Db} → Moves db d → Result.ok d ≡ ok db' → Moves db db'
ok-Moves {db} {d} {db'} m e = subst (Moves db) (ok_eq e) m
  where
    ok_eq : Result.ok d ≡ ok db' → d ≡ db'
    ok_eq x = cc
