-- ===== src/Billing/Post.antt =====
-- internal/billing/service.go, lookup_billing.go: what the operations on a wallet have in common:
-- the test for a deleted client, the idempotency key, the hold, and the posting of new balances
-- together with a ledger row.
use sms.Prelude.{Bool, true, false, not, Option, none, some, ◌==◌}
use sms.Prelude.Int.{ℤ}
use sms.Prelude.Text.{Text, trim_space}
use sms.Store.Types.{Uuid, Key, Wallet, WalletTransaction, hold, Db, is_deleted}
use sms.Store.Errors.{Result, ◌>>=◌, row_or, wallet_not_found, no_rows}
use sms.Store.Wallets.{lock_wallet_by_client_id, update_wallet_balances}
use sms.Store.Ledger.{get_wallet_tx_by_idempotency, insert_wallet_transaction}
use sms.Store.Rows.{get_client_by_id}
use sms.Billing.Money.{apply_hold}

-- A client that is not there counts as deleted.
unfoldable pub client_deleted : Uuid → Db → Bool
client_deleted client db = elim (get_client_by_id client db.clients) [
  | none ↦ true
  | some cl ↦ is_deleted cl.status
]

-- err == nil && existing.ID != uuid.Nil
unfoldable pub key_used : Uuid → Key → Db → Bool
key_used client key db = elim (get_wallet_tx_by_idempotency client key db.wallet_transactions) [
  | none ↦ false
  | some existing ↦ not (existing.id == 0)
]

-- UpdateWalletBalances on the locked wallet, then InsertWalletTransaction with the new balances.
unfoldable pub post_balances : Wallet → WalletTransaction → Db → Result Db
post_balances w t db = do
  ws ← row_or no_rows (
      update_wallet_balances t.balance_after_available t.balance_after_held w.id w.version
        db.wallets)
  insert_wallet_transaction t (record db { wallets = ws })

-- The hold of a message or of a lookup job, when its key is not used yet.
unfoldable pub place_hold : Uuid → Key → ℤ → Text → Option Uuid → Option Uuid → Db → Result Db
unfolding post_balances
place_hold client key amount currency message job db = do
  w ← row_or wallet_not_found (lock_wallet_by_client_id client db.wallets)
  balances ← apply_hold w.available_balance w.held_balance amount
  post_balances w
      (record {
        id = 0;
        wallet_id = w.id;
        client_id = client;
        type = hold;
        amount = amount;
        currency = trim_space currency;
        balance_after_available = balances.0;
        balance_after_held = balances.1;
        related_hold_id = none;
        sms_message_id = message;
        lookup_job_id = job;
        lookup_item_id = none;
        idempotency_key = key;
        direction = none;
      })
      db
