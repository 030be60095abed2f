-- ===== src/Billing/Ledger/Sums.antt =====
-- The ledger read as an account: what each row of wallet_transactions adds to the two balances.
use sms.Prelude.{◌≡◌, refl, ==_iff, false, Option, some, List, [], ◌∷◌, ◌==◌, if◌then◌else◌}
use sms.Prelude.Int.{ℤ, pos, ◌+ℤ◌, ◌-ℤ◌, +ℤ_comm, zero-+ℤ}
use sms.Store.Types.{
  Uuid, WalletTxType, credit, hold, debit, release_tx, adjustment, Direction, to_debit,
  WalletTransaction,
}

abbrev pub signed : Option Direction → ℤ → ℤ
signed (some to_debit) amt = pos 0 -ℤ amt
signed _ amt = amt

abbrev pub available_delta : WalletTxType → Option Direction → ℤ → ℤ
available_delta credit direction amt = amt
available_delta hold direction amt = pos 0 -ℤ amt
available_delta debit direction amt = pos 0
available_delta release_tx direction amt = amt
available_delta adjustment direction amt = signed direction amt

abbrev pub held_delta : WalletTxType → ℤ → ℤ
held_delta credit amt = pos 0
held_delta hold amt = amt
held_delta debit amt = pos 0 -ℤ amt
held_delta release_tx amt = pos 0 -ℤ amt
held_delta adjustment amt = pos 0

unfoldable pub sum_available : Uuid → List WalletTransaction → ℤ
sum_available client [] = pos 0
sum_available client (t ∷ ts) =
    (if t.client_id == client then available_delta t.type t.direction t.amount else pos 0)
    +ℤ sum_available client ts

unfoldable pub sum_held : Uuid → List WalletTransaction → ℤ
sum_held client [] = pos 0
sum_held client (t ∷ ts) =
    (if t.client_id == client then held_delta t.type t.amount else pos 0) +ℤ sum_held client ts

-- A row counts for its own client and for no other.
module _ (t : WalletTransaction) (ts : List WalletTransaction) where
  pub sum-own :
      (sum_available t.client_id (t ∷ ts)
        ≡ sum_available t.client_id ts +ℤ available_delta t.type t.direction t.amount)
      × (sum_held t.client_id (t ∷ ts) ≡ sum_held t.client_id ts +ℤ held_delta t.type t.amount)
  unfolding sum_available sum_held
  sum-own = rw ((==_iff t.client_id t.client_id).1 refl) (+ℤ_comm _ _, +ℤ_comm _ _)

  pub sum-other :
      (c : Uuid)
      → (t.client_id == c) ≡ false
      → (sum_available c (t ∷ ts) ≡ sum_available c ts) × (sum_held c (t ∷ ts) ≡ sum_held c ts)
  unfolding sum_available sum_held
  sum-other c e = rw e (zero-+ℤ _, zero-+ℤ _)
