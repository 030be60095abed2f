-- ===== src/Billing/Ledger/Operations.antt =====
-- Any sequence of billing operations, each its own transaction: what holds of the ledger after it.
use sms.Prelude.{◌≡◌, refl, Bool, All, true, false, Option, some, List, [], ◌∷◌}
use sms.Prelude.Int.{pos, ◌≤ℤ◌}
use sms.Prelude.Text.{Text}
use sms.Store.Types.{Uuid, Wallet, WalletTransaction, SmsMessage, LookupJob, Db, is_hold}
use sms.Store.Errors.{Result, ok, err}
use sms.Store.Wallets.{get_wallet_by_client_id}
use sms.Store.Ledger.{sum_settled_against_hold}
use sms.Billing.Sms.{reserve_for_message, capture_for_message, release_for_message, or_same}
use sms.Billing.Rounding.{Decimal}
use sms.Billing.Credit.{TopUpInput, AdjustInput, top_up, adjust}
use sms.Billing.Lookup.{
  reserve_for_lookup_job, capture_for_lookup_item, release_for_lookup_item,
  release_lookup_job_remainder,
}
use sms.Billing.Ledger.Sums.{sum_available, sum_held}
use sms.Billing.Ledger.Invariant.{In, Proper, Valid, ValidIf}
use sms.Billing.Ledger.Moves.{Moves-Valid}
use sms.Billing.Ledger.SmsMoves.{reserve_for_message-Moves, settle-Moves}
use sms.Billing.Ledger.CreditMoves.{six_decimals, top_up-Valid, adjust-Valid}
use sms.Billing.Ledger.LookupMoves.{reserve_for_lookup_job-Moves}
use sms.Billing.Ledger.RemainderMoves.{settle_lookup_item-Moves, release_lookup_job_remainder-Moves}

-- The methods of billing.Service that write.
pub data Operation : Type 0 where
  reserve_message : SmsMessage → Operation
  capture_message release_message : Uuid → Operation
  credit_client : TopUpInput → Operation
  adjust_client : AdjustInput → Operation
  reserve_job : LookupJob → Operation
  capture_item release_item : Uuid → Operation
  release_job_remainder : Uuid → Operation

false-true : ◌≡◌ {A = Bool} false true → ⊥
false-true x = cc

All-loosely : (ts : List WalletTransaction) → All (Proper true) ts → All (Proper false) ts
All-loosely [] h = tt
All-loosely (t ∷ ts) h = ((h.0.0, h.0.1, (λ x. h.0.2 refl)), All-loosely ts h.1)

-- What holds of exact amounts holds also where they may be rounded.
Valid-loosely : {db : Db} → Valid db → ValidIf false db
Valid-loosely {db} v = record {
  keyed = v.keyed;
  first = v.first;
  ids = v.ids;
  proper = All-loosely db.wallet_transactions v.proper;
  linked = v.linked;
  balanced = λ client w e.
      let (available, held, positive) = v.balanced client w e in
      ((λ x. available refl), held, positive);
  covered = v.covered;
}

module _ (new_from_string : Text → Option Decimal) where
  unfoldable pub perform : Operation → Db → Result Db
  unfolding capture_for_message release_for_message capture_for_lookup_item release_for_lookup_item
  perform (reserve_message msg) db = reserve_for_message msg db
  perform (capture_message id) db = capture_for_message id db
  perform (release_message id) db = release_for_message id db
  perform (credit_client inp) db = top_up new_from_string inp db
  perform (adjust_client inp) db = adjust new_from_string inp db
  perform (reserve_job job) db = reserve_for_lookup_job job db
  perform (capture_item id) db = capture_for_lookup_item id db
  perform (release_item id) db = release_for_lookup_item id db
  perform (release_job_remainder job) db = release_lookup_job_remainder job db

  -- An operation that fails is rolled back.
  unfoldable pub perform_all : List Operation → Db → Db
  perform_all [] db = db
  perform_all (op ∷ ops) db = perform_all ops (or_same db (perform op db))

  -- An amount that is given has no more than six decimals.
  abbrev pub is_exact : Operation → Bool
  is_exact (credit_client inp) = six_decimals new_from_string inp.amount
  is_exact (adjust_client inp) = six_decimals new_from_string inp.amount
  is_exact _ = true

  perform-Valid :
      {exact : Bool} (op : Operation) (db : Db) {db' : Db}
      → (exact ≡ true → is_exact op ≡ true)
      → ValidIf exact db
      → perform op db ≡ ok db'
      → ValidIf exact db'
  unfolding perform
  perform-Valid (reserve_message msg) db x v h =
      Moves-Valid v (reserve_for_message-Moves msg db v h)
  perform-Valid (capture_message id) db x v h = Moves-Valid v (settle-Moves id true db v h)
  perform-Valid (release_message id) db x v h = Moves-Valid v (settle-Moves id false db v h)
  perform-Valid (credit_client inp) db x v h = top_up-Valid new_from_string inp db v x h
  perform-Valid (adjust_client inp) db x v h = adjust-Valid new_from_string inp db v x h
  perform-Valid (reserve_job job) db x v h = Moves-Valid v (reserve_for_lookup_job-Moves job db v h)
  perform-Valid (capture_item id) db x v h = Moves-Valid v (settle_lookup_item-Moves id true db v h)
  perform-Valid (release_item id) db x v h =
      Moves-Valid v (settle_lookup_item-Moves id false db v h)
  perform-Valid (release_job_remainder job) db x v h =
      Moves-Valid v (release_lookup_job_remainder-Moves job db v h)

  or_same-Valid :
      {exact : Bool} (op : Operation) (db : Db) (r : Result Db)
      → (exact ≡ true → is_exact op ≡ true)
      → perform op db ≡ r
      → ValidIf exact db
      → ValidIf exact (or_same db r)
  or_same-Valid op db (ok db') x e v = perform-Valid op db x v e
  or_same-Valid op db (err y) x e v = v

  perform_all-Valid :
      {exact : Bool} (ops : List Operation) (db : Db)
      → (exact ≡ true → All (λ op. is_exact op ≡ true) ops)
      → ValidIf exact db
      → ValidIf exact (perform_all ops db)
  unfolding perform_all
  perform_all-Valid [] db x v = v
  perform_all-Valid (op ∷ ops) db x v =
      perform_all-Valid ops (or_same db (perform op db)) (λ h. (x h).1)
        (or_same-Valid op db (perform op db) (λ h. (x h).0) refl v)

  -- From a database that satisfies the invariant, after any sequence of billing operations, whether
  -- they succeed or fail, whose top-ups and adjustments are given with no more than six decimals, the
  -- available and the held balance of every client's wallet are the sums of what the client's ledger
  -- rows add to them, and no wallet holds less than zero.
  pub perform_all-balanced :
      (ops : List Operation) (db : Db) (client : Uuid) (w : Wallet)
      → Valid db
      → All (λ op. is_exact op ≡ true) ops
      → get_wallet_by_client_id client (perform_all ops db).wallets ≡ some w
      → (w.available_balance ≡ sum_available client (perform_all ops db).wallet_transactions)
        × (w.held_balance ≡ sum_held client (perform_all ops db).wallet_transactions)
        × (pos 0 ≤ℤ w.held_balance)
  perform_all-balanced ops db client w v x e =
      let (available, held, positive) = (perform_all-Valid ops db (λ h. x) v).balanced client w e in
      (available refl, held, positive)

  -- From a database that satisfies the invariant, after any sequence of billing operations, whether
  -- they succeed or fail and however fine their amounts are, the held balance of every client's
  -- wallet is the sum of what the client's ledger rows add to it, and it is not negative.
  pub perform_all-held :
      (ops : List Operation) (db : Db) (client : Uuid) (w : Wallet)
      → Valid db
      → get_wallet_by_client_id client (perform_all ops db).wallets ≡ some w
      → (w.held_balance ≡ sum_held client (perform_all ops db).wallet_transactions)
        × (pos 0 ≤ℤ w.held_balance)
  perform_all-held ops db client w v e =
      let (available, held, positive) =
        (perform_all-Valid ops db (λ h. absurd (false-true h)) (Valid-loosely v)).balanced client w
          e in
      (held, positive)

  -- From a database that satisfies the invariant, after any sequence of billing operations, the rows
  -- that settle a hold of the ledger add up to no more than the hold's amount.
  pub perform_all-covered :
      (ops : List Operation) (db : Db) (h : WalletTransaction)
      → Valid db
      → In h (perform_all ops db).wallet_transactions
      → is_hold h.type ≡ true
      → sum_settled_against_hold h.id (perform_all ops db).wallet_transactions ≤ℤ h.amount
  perform_all-covered ops db h v m is =
      (perform_all-Valid ops db (λ x. absurd (false-true x)) (Valid-loosely v)).covered h m is
