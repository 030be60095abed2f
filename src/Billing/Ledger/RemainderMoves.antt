-- ===== src/Billing/Ledger/RemainderMoves.antt =====
-- The retry loop, and the release of what is left of a lookup job's hold, keep the invariant.
use sms.Prelude.{
  ℕ, zero, suc, ◌≡◌, ◌⊎◌, refl, sym, ◌∙◌, inl, inr, Bool, true, false, ◌||◌, not, some, arith,
  if◌then◌else◌,
}
use sms.Prelude.Int.{ℤ, pos, ◌+ℤ◌, ◌-ℤ◌, ◌≤ℤ◌, int_laws, +ℤ_parts, -ℤ_parts}
use sms.Store.Types.{Uuid, release_remainder, WalletTransaction, Db}
use sms.Store.Errors.{Err, Result, ok, err, row_or, ok->>=, row_or-ok, is_no_rows, no_rows}
use sms.Store.Wallets.{lock_wallet_by_client_id}
use sms.Store.Ledger.{get_lookup_job_hold, sum_settled_against_hold}
use sms.Store.Rows.{count_lookup_items_blocking_remainder}
use sms.Billing.Money.{remaining_on_hold, hold_is_open, apply_release}
use sms.Billing.Post.{client_deleted, key_used}
use sms.Billing.Lookup.{
  settle_lookup_item_once, retry, settle_lookup_item, lookup_remainder_blocked, release_remaining,
  release_hold_remainder, release_lookup_job_remainder_once, release_lookup_job_remainder,
}
use sms.Billing.Ledger.Invariant.{ValidIf}
use sms.Billing.Ledger.Moves.{Moves, post_balances-Moves, if-Moves, none-Moves}
use sms.Billing.Ledger.Holds.{
  apply_release-ok, remaining_on_hold-ok, find_oldest-In, covers_same, linked-Below, settles-id,
}
use sms.Billing.Ledger.LookupMoves.{same_parts, settle_lookup_item_once-Moves}

if_same {ℓ} : {A : Type ℓ} (b : Bool) (x : A) → (if b then x else x) ≡ x
if_same true x = refl
if_same false x = refl

no_rows_err : (e : Err) → ◌≡◌ {A = Result Db} (if is_no_rows e then err no_rows else err e) (err e)
no_rows_err e = ground arith

-- In one transaction at a time nothing changes between two attempts: trying again is trying once.
again_same :
    (r s : Result Db)
    → (s ≡ err no_rows) ⊎ (s ≡ r)
    → (elim r [ ok d ↦ ok d | err e ↦ if is_no_rows e then s else err e ]) ≡ r
again_same (ok d) s h = refl
again_same (err e) s (inl x) = rw x (no_rows_err e)
again_same (err e) s (inr x) = rw x (if_same (is_no_rows e) (err e))

pub retry_lem : (n : ℕ) (once : Db → Result Db) (db : Db) → retry (suc n) once db ≡ once db
unfolding retry
retry_lem zero once db = again_same (once db) _ (inl refl)
retry_lem (suc n) once db = again_same (once db) _ (inr (retry_lem n once db))

pub settle_lookup_item-Moves :
    (id : Uuid) (is_capture : Bool) (db : Db) {db' : Db} {exact : Bool}
    → ValidIf exact db
    → settle_lookup_item id is_capture db ≡ ok db'
    → Moves db db'
unfolding settle_lookup_item
settle_lookup_item-Moves id is_capture db v h =
    settle_lookup_item_once-Moves id is_capture db v
      (sym (retry_lem 4 (settle_lookup_item_once id is_capture) db) ∙ h)

-- The remainder is what no row has settled.
remaining_covers : (a s r : ℤ) → (r ≡ a -ℤ s) × (pos 0 ≤ℤ r) → s +ℤ r ≤ℤ a
remaining_covers a s r e = omega (arith, +ℤ_parts, -ℤ_parts, same_parts r (a -ℤ s) e.0)

release_remaining-Moves :
    (t : WalletTransaction) (job : Uuid) (r : ℤ) (db : Db) {db' : Db} {exact : Bool}
    → ValidIf exact db
    → get_lookup_job_hold job db.wallet_transactions ≡ some t
    → remaining_on_hold t.amount (sum_settled_against_hold t.id db.wallet_transactions) ≡ ok r
    → pos 1 ≤ℤ r
    → release_remaining t job r db ≡ ok db'
    → Moves db db'
unfolding release_remaining get_lookup_job_hold
release_remaining-Moves t job r db v found er positive h =
    let there = (find_oldest-In _ db.wallet_transactions found).0 in
    ok->>= (row_or no_rows (lock_wallet_by_client_id t.client_id db.wallets)) _ h λ w lw h1.
      ok->>= (apply_release w.available_balance w.held_balance r) _ h1 λ b hb h2.
        let (ba, bh, bn) = apply_release-ok w.available_balance w.held_balance r hb in
        post_balances-Moves w _ db v (row_or-ok no_rows _ lw)
          (record {
            amount_positive = positive;
            available_moves = ba;
            held_moves = bh ∙ omega int_laws;
            held_stays = λ n. bn;
          })
          (λ k e. linked-Below db.next_id k t db.wallet_transactions v.ids there e)
          (λ i m is s.
            covers_same db.next_id t i r db.wallet_transactions v.ids there m
              (settles-id t.id i.id _ s)
              (remaining_covers t.amount _ r (remaining_on_hold-ok _ _ er)))
          h2

open_remainder : (r : ℤ) (used : Bool) → (not (hold_is_open r) || used) ≡ false → pos 1 ≤ℤ r
unfolding hold_is_open
open_remainder r used e = ground arith

release_hold_remainder-Moves :
    (t : WalletTransaction) (job : Uuid) (db : Db) {db' : Db} {exact : Bool}
    → ValidIf exact db
    → get_lookup_job_hold job db.wallet_transactions ≡ some t
    → release_hold_remainder t job db ≡ ok db'
    → Moves db db'
unfolding release_hold_remainder
release_hold_remainder-Moves t job db v found h =
    if-Moves (client_deleted t.client_id db) _ h λ there h0.
      ok->>= (remaining_on_hold t.amount (sum_settled_against_hold t.id db.wallet_transactions)) _
        h0
        λ r er h1.
          if-Moves (not (hold_is_open r) || key_used t.client_id (release_remainder job) db)
            (release_remaining t job r db) h1
            λ c h2. release_remaining-Moves t job r db v found er (open_remainder r _ c) h2

pub release_lookup_job_remainder-Moves :
    (job : Uuid) (db : Db) {db' : Db} {exact : Bool}
    → ValidIf exact db
    → release_lookup_job_remainder job db ≡ ok db'
    → Moves db db'
unfolding release_lookup_job_remainder release_lookup_job_remainder_once
release_lookup_job_remainder-Moves job db v h =
    if-Moves (lookup_remainder_blocked (count_lookup_items_blocking_remainder job db.lookup_items))
      _ (sym (retry_lem 4 (release_lookup_job_remainder_once job) db) ∙ h)
      λ c h0.
        none-Moves (get_lookup_job_hold job db.wallet_transactions)
          (λ t. release_hold_remainder t job db) h0
          λ t found h1. release_hold_remainder-Moves t job db v found h1
