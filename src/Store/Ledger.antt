-- ===== src/Store/Ledger.antt =====
-- internal/db/sqlc/billing.sql.go, lookup_billing.sql.go: the statements on wallet_transactions.
use sms.Prelude.{
  suc, Bool, false, ◌&&◌, not, Option, none, some, List, [], ◌∷◌, find_first, any, ◌==◌,
  if◌then◌else◌,
}
use sms.Prelude.Int.{ℤ, pos, ◌+ℤ◌}
use sms.Prelude.Text.{text_eq}
use sms.Store.Types.{
  Uuid, Key, hold_sms, debit_sms, release_sms, hold_lookup_job, debit_lookup_item,
  release_lookup_item, release_remainder, topup, adjustment_key, WalletTransaction, Db, is_hold,
  is_settlement, is_id,
}
use sms.Store.Errors.{Result, ok, err, unique_violation}

unfoldable pub key_eq : Key → Key → Bool
key_eq (hold_sms a) (hold_sms b) = a == b
key_eq (debit_sms a) (debit_sms b) = a == b
key_eq (release_sms a) (release_sms b) = a == b
key_eq (hold_lookup_job a) (hold_lookup_job b) = a == b
key_eq (debit_lookup_item a) (debit_lookup_item b) = a == b
key_eq (release_lookup_item a) (release_lookup_item b) = a == b
key_eq (release_remainder a) (release_remainder b) = a == b
key_eq (topup a s) (topup b t) = a == b && text_eq s t
key_eq (adjustment_key a s) (adjustment_key b t) = a == b && text_eq s t
key_eq _ _ = false

abbrev pub has_key : Uuid → Key → WalletTransaction → Bool
has_key client key t = t.client_id == client && key_eq t.idempotency_key key

unfoldable pub get_wallet_tx_by_idempotency :
    Uuid → Key → List WalletTransaction → Option WalletTransaction
get_wallet_tx_by_idempotency client key = find_first (has_key client key)

-- The unique index on (client_id, idempotency_key) refuses a second row; the id is generated.
unfoldable pub insert_wallet_transaction : WalletTransaction → Db → Result Db
insert_wallet_transaction t db =
    if any (has_key t.client_id t.idempotency_key) db.wallet_transactions
    then err unique_violation
    else ok (record db {
      wallet_transactions = record t { id = db.next_id } ∷ db.wallet_transactions;
      next_id = suc db.next_id;
    })

-- A row of type DEBIT or RELEASE that settles the hold.
abbrev pub settles : Uuid → WalletTransaction → Bool
settles h s = is_id s.related_hold_id h && is_settlement s.type

-- type = 'HOLD' AND NOT EXISTS (a settlement of it)
abbrev pub is_open_hold : List WalletTransaction → WalletTransaction → Bool
is_open_hold txs h = is_hold h.type && not (any (settles h.id) txs)

-- ORDER BY created_at LIMIT 1: the oldest row that passes.
unfoldable pub find_oldest :
    (WalletTransaction → Bool) → List WalletTransaction → Option WalletTransaction
find_oldest p [] = none
find_oldest p (t ∷ ts) = elim (find_oldest p ts) [
  | some u ↦ some u
  | none ↦ if p t then some t else none
]

unfoldable pub get_open_hold_for_message : Uuid → List WalletTransaction → Option WalletTransaction
get_open_hold_for_message message txs =
    find_oldest (λ h. is_id h.sms_message_id message && is_open_hold txs h) txs

unfoldable pub get_lookup_job_hold : Uuid → List WalletTransaction → Option WalletTransaction
get_lookup_job_hold job = find_oldest (λ h. is_id h.lookup_job_id job && is_hold h.type)

unfoldable pub sum_settled_against_hold : Uuid → List WalletTransaction → ℤ
sum_settled_against_hold h [] = pos 0
sum_settled_against_hold h (s ∷ ss) =
    (if settles h s then s.amount else pos 0) +ℤ sum_settled_against_hold h ss
