-- ===== src/Store/Wallets.antt =====
-- internal/db/sqlc/billing.sql.go: the statements on the table wallets.
use sms.Prelude.{
  ℕ, ◌+◌, ◌≡◌, ◌≢◌, ◌&&◌, Option, none, some, List, [], ◌∷◌, arith, find_first, ◌==◌, if◌then◌else◌,
}
use sms.Prelude.Int.{ℤ}
use sms.Store.Types.{Uuid, Wallet}
use mathlib.Core.Option

-- GetWalletByClientID; LockWalletByClientID is the same query FOR UPDATE.
unfoldable pub get_wallet_by_client_id : Uuid → List Wallet → Option Wallet
get_wallet_by_client_id client = find_first (λ (w : Wallet). w.client_id == client)

unfoldable pub lock_wallet_by_client_id : Uuid → List Wallet → Option Wallet
lock_wallet_by_client_id client = find_first (λ (w : Wallet). w.client_id == client)

-- UpdateWalletBalances: WHERE id = $3 AND version = $4. No row is `none`, which is ErrNoRows.
unfoldable pub update_wallet_balances : ℤ → ℤ → Uuid → ℕ → List Wallet → Option (List Wallet)
update_wallet_balances avail held wid version [] = none
update_wallet_balances avail held wid version (w ∷ ws) =
    if w.id == wid && w.version == version
    then some
        (record w { available_balance = avail; held_balance = held; version = w.version + 1 } ∷ ws)
    else Option.map (λ rest. w ∷ rest) (update_wallet_balances avail held wid version ws)

-- The table's keys: no client and no id stands twice.
abbrev pub Fresh : Wallet → List Wallet → Type 0
Fresh v [] = Unit
Fresh v (w ∷ ws) = (v.id ≢ w.id) × (v.client_id ≢ w.client_id) × Fresh v ws

abbrev pub Keyed : List Wallet → Type 0
Keyed [] = Unit
Keyed (w ∷ ws) = Fresh w ws × Keyed ws

-- The update that follows a lock meets exactly the locked row.
unfoldable pub put_balances : Uuid → ℤ → ℤ → List Wallet → List Wallet
put_balances client avail held [] = []
put_balances client avail held (w ∷ ws) =
    if w.client_id == client
    then record w { available_balance = avail; held_balance = held; version = w.version + 1 } ∷ ws
    else w ∷ put_balances client avail held ws

Fresh-locked :
    (v : Wallet) (client : Uuid) (w : Wallet) (ws : List Wallet)
    → Fresh v ws
    → lock_wallet_by_client_id client ws ≡ some w
    → v.id ≢ w.id
unfolding lock_wallet_by_client_id
Fresh-locked v client w [] h e = cc
Fresh-locked v client w (u ∷ ws) h e = ground (arith, Fresh-locked v client w ws h.2)

pub update-locked :
    (client : Uuid) (w : Wallet) (avail held : ℤ) (ws : List Wallet)
    → Keyed ws
    → lock_wallet_by_client_id client ws ≡ some w
    → update_wallet_balances avail held w.id w.version ws ≡ some (put_balances client avail held ws)
unfolding lock_wallet_by_client_id update_wallet_balances put_balances
update-locked client w avail held [] h e = cc
update-locked client w avail held (u ∷ ws) h e =
    ground (arith, Fresh-locked u client w ws h.0, update-locked client w avail held ws h.1)
