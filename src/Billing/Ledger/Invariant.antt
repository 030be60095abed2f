-- ===== src/Billing/Ledger/Invariant.antt =====
-- The invariant of the billing tables.
use sms.Prelude.{Bool, ◌||◌, ℕ, ◌≤◌, ◌<◌, ◌≡◌, ◌⊎◌, true, some, List, [], ◌∷◌, All}
use sms.Prelude.Int.{pos, ◌≤ℤ◌}
use sms.Store.Types.{Uuid, Wallet, WalletTransaction, Db, is_hold}
use sms.Store.Wallets.{Keyed, get_wallet_by_client_id}
use sms.Store.Ledger.{sum_settled_against_hold}
use sms.Billing.Ledger.Sums.{sum_available, sum_held}

abbrev pub In : WalletTransaction → List WalletTransaction → Type 0
In h [] = ⊥
In h (t ∷ ts) = (h ≡ t) ⊎ In h ts

-- Newest first, each id was new when it was given.
abbrev pub Below : ℕ → List WalletTransaction → Type 0
Below n [] = Unit
Below n (t ∷ ts) = (t.id < n) × Below t.id ts

-- A row is not settled before it is there.
abbrev pub LinkedBack : WalletTransaction → Type 0
LinkedBack t = (k : Uuid) → t.related_hold_id ≡ some k → k < t.id

-- A row has an id and an amount, which is positive; that of a credit or an adjustment may have been
-- rounded to 0, unless the amounts are `exact`.
abbrev pub Proper : Bool → WalletTransaction → Type 0
Proper exact t =
    (1 ≤ t.id) × (pos 0 ≤ℤ t.amount) × ((exact || is_hold t.type) ≡ true → pos 1 ≤ℤ t.amount)

-- What is held is the sum of the ledger rows, and no more is held than was; what is available is
-- their sum where the amounts are `exact`.
abbrev pub Balanced : Bool → Uuid → Wallet → List WalletTransaction → Type 0
Balanced exact client w txs =
    (exact ≡ true → w.available_balance ≡ sum_available client txs)
    × (w.held_balance ≡ sum_held client txs)
    × (pos 0 ≤ℤ w.held_balance)

abbrev pub Covered : List WalletTransaction → Type 0
Covered txs =
    (h : WalletTransaction)
    → In h txs
    → is_hold h.type ≡ true
    → sum_settled_against_hold h.id txs ≤ℤ h.amount

-- `exact`: no amount was rounded when it was stored.
pub record ValidIf (exact : Bool) (db : Db) : Type 0 where
  pub keyed : Keyed db.wallets
  pub first : 1 ≤ db.next_id
  pub ids : Below db.next_id db.wallet_transactions
  pub proper : All (Proper exact) db.wallet_transactions
  pub linked : All LinkedBack db.wallet_transactions
  pub balanced :
      (client : Uuid) (w : Wallet)
      → get_wallet_by_client_id client db.wallets ≡ some w
      → Balanced exact client w db.wallet_transactions
  pub covered : Covered db.wallet_transactions

abbrev pub Valid : Db → Type 0
Valid db = ValidIf true db
