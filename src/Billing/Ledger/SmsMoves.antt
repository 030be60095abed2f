-- ===== src/Billing/Ledger/SmsMoves.antt =====
-- The operations of internal/billing/service.go keep the invariant.
use sms.Prelude.{
  ◌≡◌, ◌||◌, refl, ◌∙◌, inl, inr, Bool, true, false, ◌&&◌, not, Option, none, some, List, arith,
  any, Bool-cases,
}
use sms.Prelude.Int.{ℤ, pos, ◌+ℤ◌, ◌≤ℤ◌, int_laws, +ℤ_parts, scale}
use sms.Prelude.Text.{Text}
use sms.Store.Types.{is_id, is_hold, hold_sms, Uuid, Key, WalletTransaction, Db, SmsMessage}
use sms.Store.Errors.{
  Result, ok, err, row_or, ok->>=, row_or-ok, wallet_not_found, no_rows, validation,
  price_snapshot_missing,
}
use sms.Store.Wallets.{lock_wallet_by_client_id}
use sms.Store.Ledger.{settles, sum_settled_against_hold, get_open_hold_for_message}
use sms.Billing.Money.{apply_hold, must_positive}
use sms.Store.Rows.{get_sms_message_by_id, set_sms_message_billing_action}
use sms.Billing.Post.{post_balances, place_hold, key_used, client_deleted}
use sms.Billing.Sms.{
  reserve_priced, reserve_for_message, settle_balances, mark_message, settle_hold, settle_client,
  settle_message, settle, or_same, settle_type, settle_billing_action, settle_key,
}
use sms.Billing.Ledger.Sums.{available_delta, held_delta}
use sms.Billing.Ledger.Invariant.{ValidIf}
use sms.Billing.Ledger.Moves.{
  Moves, post_balances-Moves, if-Moves, none-Moves, Moves-then, Moves-refl, ok-Moves,
}
use sms.Billing.Ledger.Holds.{
  apply_hold-ok, apply_release-ok, apply_debit_from_hold-ok, must_positive-ok, find_oldest-In,
  In-Proper, any-settles-sum, covers_same, linked-Below, settles-id,
}

pub place_hold-Moves :
    (client : Uuid) (key : Key) (amount : ℤ) (currency : Text) (message job : Option Uuid) (db : Db)
    {db' : Db} {exact : Bool}
    → ValidIf exact db
    → pos 1 ≤ℤ amount
    → place_hold client key amount currency message job db ≡ ok db'
    → Moves db db'
unfolding place_hold
place_hold-Moves client key amount currency message job db v positive h =
    ok->>= (row_or wallet_not_found (lock_wallet_by_client_id client db.wallets)) _ h λ w lw h1.
      ok->>= (apply_hold w.available_balance w.held_balance amount) _ h1 λ b hb h2.
        let (ba, bh, bn) = apply_hold-ok w.available_balance w.held_balance amount hb in
        post_balances-Moves w _ db v (row_or-ok wallet_not_found _ lw)
          (record {
            amount_positive = positive;
            available_moves = ba ∙ omega int_laws;
            held_moves = bh;
            held_stays = λ n. rw bh (omega int_laws);
          })
          (λ k e. cc) (λ i m is s. cc) h2

reserve_priced-Moves :
    (msg : SmsMessage) (client : Uuid) (db : Db) {db' : Db} {exact : Bool}
    → ValidIf exact db
    → reserve_priced msg client db ≡ ok db'
    → Moves db db'
unfolding reserve_priced
reserve_priced-Moves msg client db v h =
    ok->>= (row_or price_snapshot_missing msg.unit_sell_price) _ h λ price e1 h1.
      ok->>= (row_or price_snapshot_missing msg.billed_segments) _ h1 λ segments e2 h2.
        ok->>= (row_or price_snapshot_missing msg.tariff_plan_id) _ h2 λ plan e3 h3.
          ok->>= (row_or price_snapshot_missing msg.tariff_plan_code) _ h3 λ code e4 h4.
            ok->>= (row_or price_snapshot_missing msg.currency) _ h4 λ currency e5 h5.
              ok->>= (must_positive (scale price segments)) _ h5 λ u e6 h6.
                if-Moves (key_used client (hold_sms msg.id) db)
                  (place_hold client (hold_sms msg.id) (scale price segments) currency (some msg.id)
                    none db)
                  h6
                  λ unused h7.
                    place_hold-Moves client (hold_sms msg.id) (scale price segments) currency
                      (some msg.id) none db v (must_positive-ok _ e6) h7

pub reserve_for_message-Moves :
    (msg : SmsMessage) (db : Db) {db' : Db} {exact : Bool}
    → ValidIf exact db
    → reserve_for_message msg db ≡ ok db'
    → Moves db db'
unfolding reserve_for_message
reserve_for_message-Moves msg db v h = ok->>= (row_or validation msg.client_id) _ h λ client e h1.
    if-Moves (client_deleted client db) (reserve_priced msg client db) h1
      λ there h2. reserve_priced-Moves msg client db v h2

-- The settlement of a held amount follows from the wallet, whichever way it goes.
pub settle_balances-lem :
    (is_capture : Bool) (a h amt : ℤ) {b : ℤ × ℤ}
    → settle_balances is_capture a h amt ≡ ok b
    → (b.0 ≡ a +ℤ available_delta (settle_type is_capture) none amt)
      × (b.1 ≡ h +ℤ held_delta (settle_type is_capture) amt)
      × (pos 0 ≤ℤ b.1)
unfolding settle_balances
settle_balances-lem true a h amt e =
    let (x, y, n) = apply_debit_from_hold-ok a h amt e in
    (x ∙ omega int_laws, y ∙ omega int_laws, n)
settle_balances-lem false a h amt e =
    let (x, y, n) = apply_release-ok a h amt e in (x, y ∙ omega int_laws, n)

-- Marking a message touches no money.
pub mark_message-Moves :
    (message : Uuid) (is_capture : Bool) {db d db' : Db}
    → Moves db d
    → mark_message message is_capture d ≡ ok db'
    → Moves db db'
unfolding mark_message
mark_message-Moves message is_capture {d} m h =
    ok->>=
      (row_or no_rows
        (set_sms_message_billing_action (settle_billing_action is_capture) message d.sms_messages))
      _ h λ ms e h1. ok-Moves (Moves-then m refl refl refl) h1

open_unsettled : (c a b : Bool) → (c && (a && not b)) ≡ true → b ≡ false
open_unsettled c a b e = ground arith

open_hold-exact : (x c a b : Bool) → (c && (a && not b)) ≡ true → (x || a) ≡ true
open_hold-exact x c a b e = ground arith

open_covers :
    (t : WalletTransaction) (ts : List WalletTransaction)
    → any (settles t.id) ts ≡ false
    → sum_settled_against_hold t.id ts +ℤ t.amount ≤ℤ t.amount
open_covers t ts e = rw (any-settles-sum t.id ts e) (omega (arith, +ℤ_parts))

or_same-Moves :
    (message : Uuid) (is_capture : Bool) (db : Db) (r : Result Db)
    → mark_message message is_capture db ≡ r
    → Moves db (or_same db r)
or_same-Moves message is_capture db (ok d) e =
    mark_message-Moves message is_capture (Moves-refl db) e
or_same-Moves message is_capture db (err x) e = Moves-refl db

settle_hold-Moves :
    (t : WalletTransaction) (message client : Uuid) (is_capture : Bool) (db : Db) {db' : Db}
    {exact : Bool}
    → ValidIf exact db
    → get_open_hold_for_message message db.wallet_transactions ≡ some t
    → settle_hold t message client is_capture db ≡ ok db'
    → Moves db db'
unfolding settle_hold get_open_hold_for_message
settle_hold-Moves t message client is_capture db {exact = exact} v found h =
    let (there, open_hold) = find_oldest-In _ db.wallet_transactions found in
    ok->>= (row_or no_rows (lock_wallet_by_client_id client db.wallets)) _ h λ w lw h1.
      ok->>= (settle_balances is_capture w.available_balance w.held_balance t.amount) _ h1
        λ b hb h2. ok->>= (post_balances w _ db) _ h2 λ d hd h3.
          let (ba, bh, bn) =
            settle_balances-lem is_capture w.available_balance w.held_balance t.amount hb in
          mark_message-Moves message is_capture
            (post_balances-Moves w _ db v (row_or-ok no_rows _ lw)
              (record {
                amount_positive = (In-Proper exact t db.wallet_transactions v.proper there).2 (
                    open_hold-exact exact (is_id t.sms_message_id message) (is_hold t.type)
                      (any (settles t.id) db.wallet_transactions) open_hold);
                available_moves = ba;
                held_moves = bh;
                held_stays = λ n. bn;
              })
              (λ k e. linked-Below db.next_id k t db.wallet_transactions v.ids there e)
              (λ i m is s.
                covers_same db.next_id t i t.amount db.wallet_transactions v.ids there m
                  (settles-id t.id i.id _ s)
                  (open_covers t db.wallet_transactions (open_unsettled _ _ _ open_hold)))
              hd)
            h3

pub settle_client-Moves :
    (message client : Uuid) (is_capture : Bool) (db : Db) {db' : Db} {exact : Bool}
    → ValidIf exact db
    → settle_client message client is_capture db ≡ ok db'
    → Moves db db'
unfolding settle_client
settle_client-Moves message client is_capture db v h =
    elim (Bool-cases (key_used client (settle_key is_capture message) db)) [
      | inl used ↦
          ok-Moves (or_same-Moves message is_capture db (mark_message message is_capture db) refl)
            (rw used at h)
      | inr unused ↦
          none-Moves (get_open_hold_for_message message db.wallet_transactions)
            (λ t. settle_hold t message client is_capture db) (rw unused at h)
            λ t found h1. settle_hold-Moves t message client is_capture db v found h1
    ]

pub settle-Moves :
    (message : Uuid) (is_capture : Bool) (db : Db) {db' : Db} {exact : Bool}
    → ValidIf exact db
    → settle message is_capture db ≡ ok db'
    → Moves db db'
unfolding settle settle_message
settle-Moves message is_capture db v h =
    none-Moves (get_sms_message_by_id message db.sms_messages)
      (λ msg. settle_message msg message is_capture db) h
      λ msg found h1. none-Moves msg.client_id _ h1 λ client e h2.
        none-Moves msg.unit_sell_price _ h2 λ price e' h3.
          if-Moves (client_deleted client db) (settle_client message client is_capture db) h3
            λ there h4. settle_client-Moves message client is_capture db v h4
