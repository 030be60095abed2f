-- ===== src/Billing/Ledger/Closing.antt =====
-- The release of a lookup job's remainder closes its hold.
use sms.Prelude.{◌≡◌, sym, ◌∙◌, inl, inr, true, false, ◌&&◌, ◌==◌, some, arith, Bool-cases}
use sms.Prelude.Int.{ℤ, pos, ◌+ℤ◌, ◌-ℤ◌, ◌≤ℤ◌, int_laws, eq_of_parts, -ℤ_parts}
use sms.Store.Types.{Uuid, WalletTransaction, Db, release_remainder}
use sms.Store.Errors.{Result, ok, row_or, ok->>=, row_or-ok, no_rows}
use sms.Store.Wallets.{lock_wallet_by_client_id}
use sms.Store.Ledger.{get_lookup_job_hold, sum_settled_against_hold}
use sms.Store.Rows.{count_lookup_items_blocking_remainder}
use sms.Billing.Money.{remaining_on_hold, hold_is_open, apply_release}
use sms.Billing.Post.{client_deleted, key_used}
use sms.Billing.Lookup.{
  release_remaining, release_hold_remainder, release_lookup_job_remainder_once,
  release_lookup_job_remainder,
}
use sms.Billing.Ledger.Invariant.{Valid}
use sms.Billing.Ledger.Posting.{sum_settled-settles}
use sms.Billing.Ledger.Moves.{post_balances-ok}
use sms.Billing.Ledger.Holds.{remaining_on_hold-ok}
use sms.Billing.Ledger.LookupMoves.{same_parts}
use sms.Billing.Ledger.RemainderMoves.{retry_lem}

-- What is left, with what was settled, is the amount.
filled : (a s r : ℤ) → r ≡ a -ℤ s → r +ℤ s ≡ a
filled a s r e = rw e (omega int_laws)

closed : (r : ℤ) → hold_is_open r ≡ false → r ≤ℤ pos 0
unfolding hold_is_open
closed r c = ground arith

-- A remainder that is not open is nothing.
nothing_left : (a s r : ℤ) → (r ≡ a -ℤ s) × (pos 0 ≤ℤ r) → hold_is_open r ≡ false → s ≡ a
nothing_left a s r e c =
    eq_of_parts s a (omega (arith, -ℤ_parts, same_parts r (a -ℤ s) e.0, closed r c, e.1))

release_remaining-closes :
    (h : WalletTransaction) (job : Uuid) (r : ℤ) (db db' : Db)
    → Valid db
    → r ≡ h.amount -ℤ sum_settled_against_hold h.id db.wallet_transactions
    → release_remaining h job r db ≡ ok db'
    → sum_settled_against_hold h.id db'.wallet_transactions ≡ h.amount
unfolding release_remaining
release_remaining-closes h job r db db' v left e =
    ok->>= (row_or no_rows (lock_wallet_by_client_id h.client_id db.wallets)) _ e λ w lw e1.
      ok->>= (apply_release w.available_balance w.held_balance r) _ e1 λ b hb e2.
        let posted = (post_balances-ok w _ db v.keyed (row_or-ok no_rows _ lw) e2).1 in
        rw posted (
          sum_settled-settles h.id _ db.wallet_transactions (own h.id)
          ∙ filled h.amount (sum_settled_against_hold h.id db.wallet_transactions) r left)
  where
    own : (k : Uuid) → (k == k && true) ≡ true
    own k = ground arith

hold_closes :
    (h : WalletTransaction) (job : Uuid) (db db' : Db)
    → Valid db
    → client_deleted h.client_id db ≡ false
    → key_used h.client_id (release_remainder job) db ≡ false
    → release_hold_remainder h job db ≡ ok db'
    → sum_settled_against_hold h.id db'.wallet_transactions ≡ h.amount
unfolding release_hold_remainder
hold_closes h job db db' v there free e =
    ok->>= (remaining_on_hold h.amount (sum_settled_against_hold h.id db.wallet_transactions)) _
      (rw there at e)
      λ r er e1.
        let left = remaining_on_hold-ok h.amount _ er in
        elim (Bool-cases (hold_is_open r)) [
          | inl opens ↦ release_remaining-closes h job r db db' v left.0 (rw (opens, free) at e1)
          | inr shut ↦ unchanged (rw shut at e1) (nothing_left h.amount _ r left shut)
        ]
  where
    unchanged :
        Result.ok db ≡ ok db'
        → sum_settled_against_hold h.id db.wallet_transactions ≡ h.amount
        → sum_settled_against_hold h.id db'.wallet_transactions ≡ h.amount
    unchanged x y = rw (sym (same x)) y
      where
        same : Result.ok db ≡ ok db' → db ≡ db'
        same z = cc

opened :
    (job : Uuid) (h : WalletTransaction) (db db' : Db)
    → count_lookup_items_blocking_remainder job db.lookup_items ≡ 0
    → get_lookup_job_hold job db.wallet_transactions ≡ some h
    → release_lookup_job_remainder_once job db ≡ ok db'
    → release_hold_remainder h job db ≡ ok db'
unfolding release_lookup_job_remainder_once
opened job h db db' unblocked found e = rw (unblocked, found) at e

-- Where no item of a job can claim any of its hold, its client is not deleted and no remainder was
-- released before, there the release of the remainder, when it succeeds, closes the hold: what is
-- settled against it is its amount.
pub release_lookup_job_remainder-closes :
    (job : Uuid) (h : WalletTransaction) (db db' : Db)
    → Valid db
    → count_lookup_items_blocking_remainder job db.lookup_items ≡ 0
    → get_lookup_job_hold job db.wallet_transactions ≡ some h
    → client_deleted h.client_id db ≡ false
    → key_used h.client_id (release_remainder job) db ≡ false
    → release_lookup_job_remainder job db ≡ ok db'
    → sum_settled_against_hold h.id db'.wallet_transactions ≡ h.amount
unfolding release_lookup_job_remainder
release_lookup_job_remainder-closes job h db db' v unblocked found there free e =
    hold_closes h job db db' v there free (
      opened job h db db' unblocked found
        (sym (retry_lem 4 (release_lookup_job_remainder_once job) db) ∙ e))
