-- ===== src/Billing/Ledger/LookupMoves.antt =====
-- The holds of lookup jobs, their settlement item by item and the release of the remainder keep the
-- invariant.
use sms.Prelude.{
  ◌≡◌, refl, ap, inl, inr, Bool, true, false, not, Option, none, some, arith, ltb, Bool-cases,
  if◌then◌else◌,
}
use sms.Prelude.Int.{ℤ, pos, pos_part, neg_part, ◌+ℤ◌, ◌-ℤ◌, ◌≤ℤ◌, ltb_ℤ, +ℤ_parts, -ℤ_parts, scale}
use sms.Store.Types.{Uuid, BillingAction, hold_lookup_job, LookupItem, LookupJob, Db}
use sms.Store.Errors.{
  ok, err, row_or, guard, ok->>=, row_or-ok, guard-ok, price_snapshot_missing, hold_not_found,
  invalid_amount, validation, no_rows,
}
use sms.Store.Wallets.{lock_wallet_by_client_id}
use sms.Store.Ledger.{get_lookup_job_hold, sum_settled_against_hold}
use sms.Store.Rows.{get_lookup_item}
use sms.Billing.Money.{must_positive, remaining_on_hold}
use sms.Billing.Post.{client_deleted, key_used, post_balances, place_hold}
use sms.Billing.Sms.{settle_balances}
use sms.Billing.Lookup.{
  reserve_for_lookup_job, item_key, mark_lookup_item_posted, settle_item_share, settle_priced_item,
  same_action, settle_lookup_item_once,
}
use sms.Billing.Ledger.Invariant.{ValidIf}
use sms.Billing.Ledger.Moves.{
  Moves, Moves-then, Moves-refl, post_balances-Moves, if-Moves, ok-Moves,
}
use sms.Billing.Ledger.Holds.{
  must_positive-ok, remaining_on_hold-ok, find_oldest-In, covers_same, linked-Below, settles-id,
}
use sms.Billing.Ledger.SmsMoves.{place_hold-Moves, settle_balances-lem}

pub reserve_for_lookup_job-Moves :
    (job : LookupJob) (db : Db) {db' : Db} {exact : Bool}
    → ValidIf exact db
    → reserve_for_lookup_job job db ≡ ok db'
    → Moves db db'
unfolding reserve_for_lookup_job
reserve_for_lookup_job-Moves job db v h = if-Moves (client_deleted job.client_id db) _ h λ there h0.
    ok->>= (guard (not (ltb job.item_count 1)) validation) _ h0 λ u e h1.
      ok->>= (row_or price_snapshot_missing job.unit_sell_price) _ h1 λ price e1 h2.
        ok->>= (row_or price_snapshot_missing job.tariff_plan_id) _ h2 λ plan e2 h3.
          ok->>= (row_or price_snapshot_missing job.tariff_plan_code) _ h3 λ code e3 h4.
            ok->>= (must_positive (scale price job.item_count)) _ h4 λ u' e4 h5.
              if-Moves (key_used job.client_id (hold_lookup_job job.id) db)
                (place_hold job.client_id (hold_lookup_job job.id) (scale price job.item_count)
                  job.currency none (some job.id) db)
                h5
                λ unused h6.
                  place_hold-Moves job.client_id (hold_lookup_job job.id)
                    (scale price job.item_count) job.currency none (some job.id) db v
                    (must_positive-ok _ e4) h6

not-true : (b : Bool) → not b ≡ true → b ≡ false
not-true b e = ground arith

not_less : (a b : ℤ) → ltb_ℤ a b ≡ false → b ≤ℤ a
not_less a b e = ground arith

pub same_parts : (a b : ℤ) → a ≡ b → (pos_part a ≡ pos_part b) × (neg_part a ≡ neg_part b)
same_parts a b e = (ap pos_part e, ap neg_part e)

-- What is left of a hold covers a share that is not more.
left_covers :
    (a s r share : ℤ) → (r ≡ a -ℤ s) × (pos 0 ≤ℤ r) → ltb_ℤ r share ≡ false → s +ℤ share ≤ℤ a
left_covers a s r share e l =
    omega (arith, +ℤ_parts, -ℤ_parts, not_less r share l, same_parts r (a -ℤ s) e.0)

settle_item_share-Moves :
    (item : LookupItem) (share : ℤ) (is_capture : Bool) (db : Db) {db' : Db} {exact : Bool}
    → ValidIf exact db
    → pos 1 ≤ℤ share
    → settle_item_share item share is_capture db ≡ ok db'
    → Moves db db'
unfolding settle_item_share mark_lookup_item_posted get_lookup_job_hold
settle_item_share-Moves item share is_capture db v positive h =
    ok->>= (row_or hold_not_found (get_lookup_job_hold item.job_id db.wallet_transactions)) _ h
      λ t et h1.
        ok->>= (remaining_on_hold t.amount (sum_settled_against_hold t.id db.wallet_transactions)) _
          h1
          λ r er h2. ok->>= (guard (not (ltb_ℤ r share)) invalid_amount) _ h2 λ u eu h3.
            ok->>= (row_or no_rows (lock_wallet_by_client_id item.client_id db.wallets)) _ h3
              λ w lw h4.
                ok->>= (settle_balances is_capture w.available_balance w.held_balance share) _ h4
                  λ b hb h5. ok->>= (post_balances w _ db) _ h5 λ d hd h6.
                    let there =
                      (find_oldest-In _ db.wallet_transactions (row_or-ok hold_not_found _ et)).0 in
                    let (ba, bh, bn) =
                      settle_balances-lem is_capture w.available_balance w.held_balance share hb in
                    ok-Moves
                      (Moves-then
                        (post_balances-Moves w _ db v (row_or-ok no_rows _ lw)
                          (record {
                            amount_positive = positive;
                            available_moves = ba;
                            held_moves = bh;
                            held_stays = λ n. bn;
                          })
                          (λ k e. linked-Below db.next_id k t db.wallet_transactions v.ids there e)
                          (λ i m is s.
                            covers_same db.next_id t i share db.wallet_transactions v.ids there m
                              (settles-id t.id i.id _ s)
                              (left_covers t.amount _ r share (remaining_on_hold-ok _ _ er)
                                (not-true _ (guard-ok _ invalid_amount eu))))
                          hd)
                        refl refl refl)
                      h6

settle_priced_item-Moves :
    (item : LookupItem) (is_capture : Bool) (db : Db) {db' : Db} {exact : Bool}
    → ValidIf exact db
    → settle_priced_item item is_capture db ≡ ok db'
    → Moves db db'
unfolding settle_priced_item mark_lookup_item_posted
settle_priced_item-Moves item is_capture db v h =
    ok->>= (row_or price_snapshot_missing item.unit_sell_price) _ h λ share e h1.
      ok->>= (must_positive share) _ h1 λ u e1 h2.
        elim (Bool-cases (key_used item.client_id (item_key is_capture item.id) db)) [
          | inl used ↦ ok-Moves (Moves-then (Moves-refl db) refl refl refl) (rw used at h2)
          | inr unused ↦
              settle_item_share-Moves item share is_capture db v (must_positive-ok share e1)
                (rw unused at h2)
        ]

settled_before-Moves :
    (is_same : Bool) (db : Db) {db' : Db}
    → (if is_same then ok db else err invalid_amount) ≡ ok db'
    → Moves db db'
settled_before-Moves is_same db h = if-Moves is_same (err invalid_amount) h λ other e. cc

open_item-Moves :
    (item : LookupItem) (action : Option BillingAction) (is_capture : Bool) (db : Db) {db' : Db}
    {exact : Bool}
    → ValidIf exact db
    → (elim action [
      | some a ↦ if same_action is_capture a then ok db else err invalid_amount
      | none ↦ settle_priced_item item is_capture db
    ])
      ≡ ok db'
    → Moves db db'
open_item-Moves item (some a) is_capture db v h =
    settled_before-Moves (same_action is_capture a) db h
open_item-Moves item none is_capture db v h = settle_priced_item-Moves item is_capture db v h

pub settle_lookup_item_once-Moves :
    (id : Uuid) (is_capture : Bool) (db : Db) {db' : Db} {exact : Bool}
    → ValidIf exact db
    → settle_lookup_item_once id is_capture db ≡ ok db'
    → Moves db db'
unfolding settle_lookup_item_once
settle_lookup_item_once-Moves id is_capture db v h =
    ok->>= (row_or no_rows (get_lookup_item id db.lookup_items)) _ h λ item e h1.
      if-Moves (client_deleted item.client_id db) _ h1
        λ there h2. open_item-Moves item item.billing_action is_capture db v h2
