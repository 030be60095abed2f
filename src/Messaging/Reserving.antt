-- ===== src/Messaging/Reserving.antt =====
-- What the reservation of a message leaves behind: its key is taken, and only the ledger has moved.
use sms.Prelude.{◌≡◌, refl, Bool, true, false, Option, none, some}
use sms.Prelude.Int.{ℤ, scale}
use sms.Prelude.Text.{Text}
use sms.Store.Types.{Uuid, Key, hold_sms, SmsMessage, Db}
use sms.Store.Errors.{if-ok}
use sms.Store.Errors.{ok, row_or, ok->>=, row_or-ok, price_snapshot_missing, wallet_not_found}
use sms.Store.Wallets.{lock_wallet_by_client_id}
use sms.Billing.Money.{must_positive, apply_hold}
use sms.Billing.Post.{client_deleted, key_used, place_hold}
use sms.Billing.Sms.{reserve_priced, reserve_for_message}
use sms.Billing.Ledger.Invariant.{Valid}
use sms.Billing.Ledger.Moves.{post_balances-ok}
use sms.Billing.Ledger.Once.{place_hold-Keeps}

-- Wallets, their ledger and the next id may have changed, nothing else.
abbrev pub OnlyLedger : Db → Db → Type 0
OnlyLedger db db' = db' ≡ record db {
  wallets = db'.wallets;
  wallet_transactions = db'.wallet_transactions;
  next_id = db'.next_id;
}

-- The client's key is taken, and only the ledger has moved.
pub record Taken (client : Uuid) (key : Key) (db db' : Db) : Type 0 where
  pub only : OnlyLedger db db'
  pub taken : key_used client key db' ≡ true

place_hold-OnlyLedger :
    (client : Uuid) (key : Key) (amount : ℤ) (currency : Text) (message job : Option Uuid) (db : Db)
    {db' : Db}
    → Valid db
    → place_hold client key amount currency message job db ≡ ok db'
    → OnlyLedger db db'
unfolding place_hold
place_hold-OnlyLedger client key amount currency message job db v h =
    ok->>= (row_or wallet_not_found (lock_wallet_by_client_id client db.wallets)) _ h λ w lw h1.
      ok->>= (apply_hold w.available_balance w.held_balance amount) _ h1
        λ b hb h2. rw (post_balances-ok w _ db v.keyed (row_or-ok wallet_not_found _ lw) h2).1 refl

reserve_priced-Taken :
    (msg : SmsMessage) (client : Uuid) (db : Db) {db' : Db}
    → Valid db
    → reserve_priced msg client db ≡ ok db'
    → Taken client (hold_sms msg.id) db db'
unfolding reserve_priced
reserve_priced-Taken msg client db {db'} v h =
    ok->>= (row_or price_snapshot_missing msg.unit_sell_price) _ h λ price e1 h1.
      ok->>= (row_or price_snapshot_missing msg.billed_segments) _ h1 λ segments e2 h2.
        ok->>= (row_or price_snapshot_missing msg.tariff_plan_id) _ h2 λ plan e3 h3.
          ok->>= (row_or price_snapshot_missing msg.tariff_plan_code) _ h3 λ code e4 h4.
            ok->>= (row_or price_snapshot_missing msg.currency) _ h4 λ currency e5 h5.
              ok->>= (must_positive (scale price segments)) _ h5 λ u e6 h6.
                if-ok (key_used client (hold_sms msg.id) db) _ (Taken client (hold_sms msg.id) db)
                  h6 (λ used. record { only = refl; taken = used })
                  λ free h7. record {
                    only =
                        place_hold-OnlyLedger client (hold_sms msg.id) _ currency (some msg.id) none
                          db v h7;
                    taken =
                        (place_hold-Keeps client (hold_sms msg.id) _ currency (some msg.id) none db
                          v h7).taken;
                  }

-- A reservation that succeeds moves only the ledger, and the message's hold is there unless the
-- client is deleted.
pub reserve_for_message-Taken :
    (msg : SmsMessage) (client : Uuid) (db : Db) {db' : Db}
    → Valid db
    → msg.client_id ≡ some client
    → reserve_for_message msg db ≡ ok db'
    → OnlyLedger db db'
      × (client_deleted client db ≡ false → key_used client (hold_sms msg.id) db' ≡ true)
unfolding reserve_for_message reserve_priced
reserve_for_message-Taken msg client db {db'} v c h =
    if-ok (client_deleted client db) (reserve_priced msg client db)
      (λ d.
        OnlyLedger db d
        × (client_deleted client db ≡ false → key_used client (hold_sms msg.id) d ≡ true))
      (rw c at h) (λ gone. (refl, λ there. absurd (not_both gone there)))
      (λ there h1. let t = reserve_priced-Taken msg client db v h1 in (t.only, λ e. t.taken))
  where
    not_both : {b : Bool} → b ≡ true → b ≡ false → ⊥
    not_both x y = cc
