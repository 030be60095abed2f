-- ===== src/Billing/Ledger/SettleOnce.antt =====
-- A message that is settled again the same way: its key is taken, and nothing changes.
use sms.Prelude.{
  ◌≡◌, refl, sym, ◌∙◌, ap, inl, inr, Bool, true, false, some, Bool-cases, Option-cases,
}
use mathlib.Core.Path.{subst}
use sms.Prelude.Int.{ℤ}
use sms.Store.Types.{Uuid, Key, SmsMessage, WalletTransaction, Db}
use sms.Store.Errors.{Result, ok, err, row_or, ok->>=, row_or-ok, no_rows}
use sms.Store.Wallets.{lock_wallet_by_client_id}
use sms.Store.Ledger.{get_open_hold_for_message}
use sms.Store.Rows.{get_sms_message_by_id, set_sms_message_billing_action}
use sms.Billing.Post.{client_deleted, key_used, post_balances}
use sms.Billing.Sms.{
  settle, settle_message, settle_client, settle_hold, settle_key, settle_billing_action,
  settle_balances, mark_message, or_same,
}
use sms.Billing.Ledger.Invariant.{Valid}
use sms.Billing.Ledger.Moves.{post_balances-ok}
use sms.Billing.Ledger.Once.{post_balances-Keeps}
use sms.Billing.Ledger.Marking.{set_twice, get_marked, ok_eq}

-- What marking leaves: a database that is marked, with the message, the clients and the ledger.
record Marked (id : Uuid) (is_capture : Bool) (m : SmsMessage) (db db' : Db) : Type 0 where
  again : mark_message id is_capture db' ≡ ok db'
  message :
      get_sms_message_by_id id db'.sms_messages
      ≡ some (record m { billing_action = some (settle_billing_action is_capture) })
  same_clients : db'.clients ≡ db.clients
  same_rows : db'.wallet_transactions ≡ db.wallet_transactions

mark_message-Marked :
    (id : Uuid) (is_capture : Bool) (m : SmsMessage) (db db' : Db)
    → get_sms_message_by_id id db.sms_messages ≡ some m
    → mark_message id is_capture db ≡ ok db'
    → Marked id is_capture m db db'
unfolding mark_message
mark_message-Marked id is_capture m db db' g e =
    ok->>=
      (row_or no_rows
        (set_sms_message_billing_action (settle_billing_action is_capture) id db.sms_messages))
      _ e
      λ ms em e1.
        let set = row_or-ok no_rows _ em in
        rw (sym (ok_eq e1)) (record {
          again = rw (set_twice (settle_billing_action is_capture) id db.sms_messages set) refl;
          message = get_marked (settle_billing_action is_capture) id db.sms_messages m g set;
          same_clients = refl;
          same_rows = refl;
        })

same_tests :
    (client : Uuid) (key : Key) (db db' : Db)
    → db'.clients ≡ db.clients
    → db'.wallet_transactions ≡ db.wallet_transactions
    → (client_deleted client db' ≡ client_deleted client db)
      × (key_used client key db' ≡ key_used client key db)
unfolding client_deleted key_used
same_tests client key db db' c t = (rw c refl, rw t refl)

settle_again :
    (id client : Uuid) (is_capture : Bool) (m : SmsMessage) (price : ℤ) (db db' : Db)
    → m.client_id ≡ some client
    → m.unit_sell_price ≡ some price
    → client_deleted client db ≡ false
    → key_used client (settle_key is_capture id) db ≡ true
    → Marked id is_capture m db db'
    → settle id is_capture db' ≡ ok db'
unfolding settle settle_message settle_client
settle_again id client is_capture m price db db' c p there used k =
    let same = same_tests client (settle_key is_capture id) db db' k.same_clients k.same_rows in
    rw
      (
        settle,
        k.message,
        settle_message,
        c,
        p,
        same.0 ∙ there,
        settle_client,
        same.1 ∙ used,
        k.again,
      )
      refl

-- What has changed nothing changes nothing the second time.
unchanged :
    (r : Db → Result Db) (db db' : Db) → Result.ok db ≡ ok db' → r db ≡ ok db' → r db' ≡ ok db'
unchanged r db db' e h = subst (λ (x : Db). r x ≡ ok db') (ok_eq e) h

settle_hold_again :
    (id client : Uuid) (is_capture : Bool) (m : SmsMessage) (price : ℤ) (h : WalletTransaction)
    (db db' : Db)
    → Valid db
    → get_sms_message_by_id id db.sms_messages ≡ some m
    → m.client_id ≡ some client
    → m.unit_sell_price ≡ some price
    → client_deleted client db ≡ false
    → settle_hold h id client is_capture db ≡ ok db'
    → settle id is_capture db' ≡ ok db'
unfolding settle_hold
settle_hold_again id client is_capture m price h db db' v g c p there e =
    ok->>= (row_or no_rows (lock_wallet_by_client_id client db.wallets)) _ e λ w lw e1.
      ok->>= (settle_balances is_capture w.available_balance w.held_balance h.amount) _ e1
        λ b hb e2. ok->>= (post_balances w _ db) _ e2 λ d posted e3.
          let locked = row_or-ok no_rows _ lw in
          let kept = post_balances-Keeps w _ db v locked posted in
          let same_messages =
            ap (λ (x : Db). x.sms_messages) (post_balances-ok w _ db v.keyed locked posted).1 in
          settle_again id client is_capture m price d db' c p
            (gone_same d kept.same_clients ∙ there) kept.taken
            (mark_message-Marked id is_capture m d db'
              (ap (get_sms_message_by_id id) same_messages ∙ g) e3)
  where
    gone_same :
        (d : Db) → d.clients ≡ db.clients → client_deleted client d ≡ client_deleted client db
    gone_same d e = unfold client_deleted in rw e refl

settle_used_again :
    (id client : Uuid) (is_capture : Bool) (m : SmsMessage) (price : ℤ) (db db' : Db)
    → get_sms_message_by_id id db.sms_messages ≡ some m
    → m.client_id ≡ some client
    → m.unit_sell_price ≡ some price
    → client_deleted client db ≡ false
    → key_used client (settle_key is_capture id) db ≡ true
    → settle id is_capture db ≡ ok db'
    → (r : Result Db) → mark_message id is_capture db ≡ r
    → Result.ok (or_same db r) ≡ ok db'
    → settle id is_capture db' ≡ ok db'
settle_used_again id client is_capture m price db db' g c p there used e (ok d) er h =
    settle_again id client is_capture m price db db' c p there used
      (mark_message-Marked id is_capture m db db' g (er ∙ h))
settle_used_again id client is_capture m price db db' g c p there used e (err x) er h =
    unchanged (settle id is_capture) db db' h e

settle_client_twice :
    (id client : Uuid) (is_capture : Bool) (m : SmsMessage) (price : ℤ) (db db' : Db)
    → Valid db
    → get_sms_message_by_id id db.sms_messages ≡ some m
    → m.client_id ≡ some client
    → m.unit_sell_price ≡ some price
    → client_deleted client db ≡ false
    → settle id is_capture db ≡ ok db'
    → settle_client id client is_capture db ≡ ok db'
    → settle id is_capture db' ≡ ok db'
unfolding settle_client
settle_client_twice id client is_capture m price db db' v g c p there e h =
    elim (Bool-cases (key_used client (settle_key is_capture id) db)) [
      | inl used ↦
          settle_used_again id client is_capture m price db db' g c p there used e _ refl
            (rw (settle_client, used) at h)
      | inr free ↦ elim (Option-cases (get_open_hold_for_message id db.wallet_transactions)) [
        | inl shut ↦ unchanged (settle id is_capture) db db' (rw (settle_client, free, shut) at h) e
        | inr (hold, found) ↦
            settle_hold_again id client is_capture m price hold db db' v g c p there
              (rw (settle_client, free, found) at h)
      ]
    ]

settle_message_twice :
    (id : Uuid) (is_capture : Bool) (m : SmsMessage) (db db' : Db)
    → Valid db
    → get_sms_message_by_id id db.sms_messages ≡ some m
    → settle id is_capture db ≡ ok db'
    → settle_message m id is_capture db ≡ ok db'
    → settle id is_capture db' ≡ ok db'
unfolding settle_message
settle_message_twice id is_capture m db db' v g e h = elim (Option-cases m.client_id) [
  | inl c ↦ unchanged (settle id is_capture) db db' (rw (settle_message, c) at h) e
  | inr (client, c) ↦ elim (Option-cases m.unit_sell_price) [
    | inl p ↦ unchanged (settle id is_capture) db db' (rw (settle_message, c, p) at h) e
    | inr (price, p) ↦ elim (Bool-cases (client_deleted client db)) [
      | inl gone ↦ unchanged (settle id is_capture) db db' (rw (settle_message, c, p, gone) at h) e
      | inr there ↦
          settle_client_twice id client is_capture m price db db' v g c p there e
            (rw (settle_message, c, p, there) at h)
    ]
  ]
]

-- A capture or a release of a message that has succeeded succeeds again on the database it has
-- left, and changes nothing, whichever branch it took.
pub settle_twice :
    (id : Uuid) (is_capture : Bool) (db db' : Db)
    → Valid db
    → settle id is_capture db ≡ ok db'
    → settle id is_capture db' ≡ ok db'
unfolding settle
settle_twice id is_capture db db' v e =
    elim (Option-cases (get_sms_message_by_id id db.sms_messages)) [
      | inl g ↦ unchanged (settle id is_capture) db db' (rw (settle, g) at e) e
      | inr (m, g) ↦ settle_message_twice id is_capture m db db' v g e (rw (settle, g) at e)
    ]
