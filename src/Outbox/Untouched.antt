-- ===== src/Outbox/Untouched.antt =====
-- Billing and the writes on messages leave the tables of the outbox alone.
use sms.Prelude.{
  ◌≡◌, refl, sym, ◌∙◌, inl, inr, Bool, true, false, Option, some, none, List, any, Bool-cases,
  Option-cases,
}
use sms.Prelude.Text.{Text}
use sms.Store.Types.{Uuid, Wallet, WalletTransaction, SmsMessage, Db}
use sms.Store.Errors.{Result, ok, err, row_or, ok->>=, no_rows, unique_violation}
use sms.Store.Wallets.{lock_wallet_by_client_id, update_wallet_balances}
use sms.Store.Ledger.{has_key, insert_wallet_transaction, get_open_hold_for_message}
use sms.Store.Rows.{get_sms_message_by_id, set_sms_message_billing_action}
use sms.Billing.Post.{client_deleted, key_used, post_balances}
use sms.Billing.Sms.{
  settle, settle_message, settle_client, settle_hold, settle_key, settle_billing_action,
  settle_balances, mark_message, or_same, capture_for_message, release_for_message,
}
use sms.Outbox.Match.{StatisticRow, is_blank}
use sms.Outbox.World.{World}
use sms.Outbox.Accepting.{
  written, tolerate, without_id, mark_accepted, apply_statistic, capture, release, note_sms_id,
}

-- The jobs and the attempts are as before.
pub record SameJobs (db db' : Db) : Type 0 where
  pub jobs : db'.send_jobs ≡ db.send_jobs
  pub attempts : db'.send_attempts ≡ db.send_attempts

pub SameJobs-refl : (db : Db) → SameJobs db db
SameJobs-refl db = record { jobs = refl; attempts = refl }

pub SameJobs-trans : {a b c : Db} → SameJobs a b → SameJobs b c → SameJobs a c
SameJobs-trans x y = record { jobs = y.jobs ∙ x.jobs; attempts = y.attempts ∙ x.attempts }

of_ok : {a b c : Db} → SameJobs a b → Result.ok b ≡ ok c → SameJobs a c
of_ok {a} {b} {c} s e = rw (sym (same e)) s
  where
    same : Result.ok b ≡ ok c → b ≡ c
    same x = cc

insert-SameJobs :
    (t : WalletTransaction) (db : Db) {db' : Db}
    → insert_wallet_transaction t db ≡ ok db'
    → SameJobs db db'
unfolding insert_wallet_transaction
insert-SameJobs t db e =
    elim (Bool-cases (any (has_key t.client_id t.idempotency_key) db.wallet_transactions)) [
      | inl taken ↦ absurd (refused (rw taken at e))
      | inr free ↦ of_ok (record { jobs = refl; attempts = refl }) (rw free at e)
    ]
  where
    refused : {d : Db} → ◌≡◌ {A = Result Db} (err unique_violation) (ok d) → ⊥
    refused x = cc

post_balances-SameJobs :
    (w : Wallet) (t : WalletTransaction) (db : Db) {db' : Db}
    → post_balances w t db ≡ ok db'
    → SameJobs db db'
unfolding post_balances
post_balances-SameJobs w t db e =
    ok->>=
      (row_or no_rows (
        update_wallet_balances t.balance_after_available t.balance_after_held w.id w.version
          db.wallets))
      _ e λ ws ew e1. with_wallets ws (insert-SameJobs t (record db { wallets = ws }) e1)
  where
    with_wallets :
        (ws : List Wallet) {d : Db} → SameJobs (record db { wallets = ws }) d → SameJobs db d
    with_wallets ws s = record { jobs = s.jobs; attempts = s.attempts }

mark_message-SameJobs :
    (id : Uuid) (is_capture : Bool) (db : Db) {db' : Db}
    → mark_message id is_capture db ≡ ok db'
    → SameJobs db db'
unfolding mark_message
mark_message-SameJobs id is_capture db e =
    ok->>=
      (row_or no_rows
        (set_sms_message_billing_action (settle_billing_action is_capture) id db.sms_messages))
      _ e λ ms em e1. of_ok (record { jobs = refl; attempts = refl }) e1

settle_hold-SameJobs :
    (h : WalletTransaction) (id client : Uuid) (is_capture : Bool) (db : Db) {db' : Db}
    → settle_hold h id client is_capture db ≡ ok db'
    → SameJobs db db'
unfolding settle_hold
settle_hold-SameJobs h id client is_capture db e =
    ok->>= (row_or no_rows (lock_wallet_by_client_id client db.wallets)) _ e λ w lw e1.
      ok->>= (settle_balances is_capture w.available_balance w.held_balance h.amount) _ e1
        λ b hb e2. ok->>= (post_balances w _ db) _ e2 λ d posted e3.
          SameJobs-trans (post_balances-SameJobs w _ db posted)
            (mark_message-SameJobs id is_capture d e3)

pub or_same-SameJobs :
    (db : Db) (r : Result Db)
    → ((db' : Db) → r ≡ ok db' → SameJobs db db')
    → SameJobs db (or_same db r)
or_same-SameJobs db (ok db') k = k db' refl
or_same-SameJobs db (err e) k = SameJobs-refl db

settle_client-SameJobs :
    (id client : Uuid) (is_capture : Bool) (db : Db) {db' : Db}
    → settle_client id client is_capture db ≡ ok db'
    → SameJobs db db'
unfolding settle_client
settle_client-SameJobs id client is_capture db e =
    elim (Bool-cases (key_used client (settle_key is_capture id) db)) [
      | inl used ↦
          of_ok
            (or_same-SameJobs db (mark_message id is_capture db)
              (λ d x. mark_message-SameJobs id is_capture db x))
            (rw (settle_client, used) at e)
      | inr free ↦ elim (Option-cases (get_open_hold_for_message id db.wallet_transactions)) [
        | inl shut ↦ of_ok (SameJobs-refl db) (rw (settle_client, free, shut) at e)
        | inr (h, found) ↦
            settle_hold-SameJobs h id client is_capture db (rw (settle_client, free, found) at e)
      ]
    ]

settle_message-SameJobs :
    (m : SmsMessage) (id : Uuid) (is_capture : Bool) (db : Db) {db' : Db}
    → settle_message m id is_capture db ≡ ok db'
    → SameJobs db db'
unfolding settle_message
settle_message-SameJobs m id is_capture db e = elim (Option-cases m.client_id) [
  | inl c ↦ of_ok (SameJobs-refl db) (rw (settle_message, c) at e)
  | inr (client, c) ↦ elim (Option-cases m.unit_sell_price) [
    | inl p ↦ of_ok (SameJobs-refl db) (rw (settle_message, c, p) at e)
    | inr (price, p) ↦ elim (Bool-cases (client_deleted client db)) [
      | inl gone ↦ of_ok (SameJobs-refl db) (rw (settle_message, c, p, gone) at e)
      | inr there ↦
          settle_client-SameJobs id client is_capture db (rw (settle_message, c, p, there) at e)
    ]
  ]
]

pub settle-SameJobs :
    (id : Uuid) (is_capture : Bool) (db : Db) {db' : Db}
    → settle id is_capture db ≡ ok db'
    → SameJobs db db'
unfolding settle
settle-SameJobs id is_capture db e =
    elim (Option-cases (get_sms_message_by_id id db.sms_messages)) [
      | inl g ↦ of_ok (SameJobs-refl db) (rw (settle, g) at e)
      | inr (m, g) ↦ settle_message-SameJobs m id is_capture db (rw (settle, g) at e)
    ]

-- A write that leaves them alone, where it succeeds.
abbrev Keeps : Db → Result Db → Type 0
Keeps db r = (db' : Db) → r ≡ ok db' → SameJobs db db'

written-SameJobs : (db : Db) (r : Result (List SmsMessage)) → Keeps db (written db r)
written-SameJobs db (ok ms) db' e = of_ok (record { jobs = refl; attempts = refl }) e
written-SameJobs db (err x) db' e = absurd (refused e)
  where
    refused : {d : Db} → ◌≡◌ {A = Result Db} (err x) (ok d) → ⊥
    refused y = cc

tolerate-SameJobs : (db : Db) (r : Result Db) → Keeps db r → Keeps db (tolerate db r)
tolerate-SameJobs db (ok d) k db' e = k db' e
tolerate-SameJobs db (err no_rows) k db' e = of_ok (SameJobs-refl db) e
tolerate-SameJobs db (err _) k db' e = k db' e

without_id-SameJobs :
    (db : Db) (pid : Option Text) (r again : Result Db)
    → Keeps db r
    → Keeps db again
    → Keeps db (without_id pid r again)
without_id-SameJobs db none r again k l = k
without_id-SameJobs db (some pid) (ok d) again k l = k
without_id-SameJobs db (some pid) (err unique_violation) again k l = l
without_id-SameJobs db (some pid) (err _) again k l = k

pub mark_accepted-SameJobs :
    (id : Uuid) (pid : Option Text) (db : Db) → Keeps db (mark_accepted id pid db)
unfolding mark_accepted
mark_accepted-SameJobs id pid db =
    without_id-SameJobs db pid _ _ (tolerate-SameJobs db _ (written-SameJobs db _))
      (tolerate-SameJobs db _ (written-SameJobs db _))

pub apply_statistic-SameJobs :
    (id : Uuid) (row : StatisticRow) (db : Db) → Keeps db (apply_statistic id row db)
unfolding apply_statistic
apply_statistic-SameJobs id row db =
    without_id-SameJobs db _ _ _ (tolerate-SameJobs db _ (written-SameJobs db _))
      (tolerate-SameJobs db _ (written-SameJobs db _))

pub or_written-SameJobs :
    (db : Db) (r : Result (List SmsMessage)) → SameJobs db (or_same db (written db r))
or_written-SameJobs db r = or_same-SameJobs db (written db r) (written-SameJobs db r)

pub capture-SameJobs : (id : Uuid) (w : World) → SameJobs w.db (capture id w).db
unfolding capture capture_for_message
capture-SameJobs id w =
    or_same-SameJobs w.db (settle id true w.db) λ d e. settle-SameJobs id true w.db e

pub release-SameJobs : (id : Uuid) (w : World) → SameJobs w.db (release id w).db
unfolding release release_for_message
release-SameJobs id w =
    or_same-SameJobs w.db (settle id false w.db) λ d e. settle-SameJobs id false w.db e

pub note_sms_id-db : (id : Text) (w : World) → (note_sms_id id w).db ≡ w.db
unfolding note_sms_id
note_sms_id-db id w = elim (Bool-cases (is_blank id)) [
  | inl blank ↦ rw (blank) refl
  | inr given ↦ rw (given) refl
]
