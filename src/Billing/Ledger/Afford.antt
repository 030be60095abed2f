-- ===== src/Billing/Ledger/Afford.antt =====
-- What was estimated and can be afforded can be reserved.
use native.Mathlib.Nat.{one-le-mul, zero-mul}
use sms.Prelude.{ℕ, ◌≤◌, ◌≡◌, refl, sym, ap, Bool, true, false, not, some, none, arith, ltb}
use sms.Prelude.Int.{ℤ, scale, pos, negsuc, ◌≤ℤ◌, ◌+ℤ◌, ◌-ℤ◌, ltb_ℤ}
use sms.Prelude.Text.{Text, text_eq, trim_space}
use sms.Store.Types.{Uuid, hold_sms, Wallet, SmsMessage, Db, BillingProduct}
use sms.Store.Errors.{
  Result, ok, err, row_or, guard, ok->>=, row_or-ok, guard-ok, wallet_not_found,
  tariff_not_configured, invalid_tariff, insufficient_funds,
}
use sms.Store.Wallets.{get_wallet_by_client_id}
use sms.Store.Tariffs.{get_client_tariff}
use sms.Msisdn.{Dest}
use sms.Billing.Money.{must_positive}
use sms.Billing.Pdu.{segment_count}
use sms.Billing.Post.{client_deleted, key_used}
use sms.Billing.Sms.{reserve_priced, reserve_for_message}
use sms.Billing.Tariffs.{
  ResolvedTariff, resolve_tariff, product_for_dest, has_ended, price_of, Estimate, estimate_of,
  estimate, assert_can_afford,
}
use sms.Billing.Ledger.Invariant.{Valid}
use sms.Billing.Ledger.Holds.{must_positive-ok}
use sms.Billing.Ledger.Placing.{rebalanced, place_hold_goes}

scale_positive : (a : ℤ) (n : ℕ) → pos 1 ≤ℤ a → 1 ≤ n → must_positive (scale a n) ≡ ok tt
unfolding must_positive scale
scale_positive (pos p) n h k =
    ground (arith, one-le-mul {a = p} {b = n} (omega (arith, h)) k, zero-mul n)
scale_positive (negsuc m) n h k = absurd (omega (arith, h))

segment_count_positive : (s : Text) → 1 ≤ segment_count s
unfolding segment_count
segment_count_positive s = ground arith

-- A tariff that is resolved has a price above zero.
resolve_tariff-positive :
    (now : ℕ) (client : Uuid) (product : BillingProduct) (db : Db) {r : ResolvedTariff}
    → resolve_tariff now client product db ≡ ok r
    → pos 1 ≤ℤ r.sell_price
unfolding resolve_tariff
resolve_tariff-positive now client product db {r} h =
    ok->>= (row_or tariff_not_configured (get_client_tariff client product db)) _ h λ row e0 h0.
      ok->>= (guard row.plan_is_active invalid_tariff) _ h0 λ u1 e1 h1.
        ok->>= (guard (not (ltb now row.effective_from)) invalid_tariff) _ h1 λ u2 e2 h2.
          ok->>= (guard (not (has_ended row.effective_to now)) invalid_tariff) _ h2 λ u3 e3 h3.
            ok->>= (must_positive (price_of row.price_override row.plan_sell_price)) _ h3
              λ u4 e4 h4.
                ok->>= (row_or wallet_not_found (get_wallet_by_client_id client db.wallets)) _ h4
                  λ w e5 h5.
                    ok->>=
                      (guard (text_eq (trim_space w.currency) (trim_space row.currency))
                        invalid_tariff)
                      _ h5 λ u6 e6 h6. rw (sym (ap sell_of h6)) (must_positive-ok _ e4)
  where
    sell_of : Result ResolvedTariff → ℤ
    sell_of (ok t) = t.sell_price
    sell_of (err x) = pos 0

estimate-priced :
    (now : ℕ) (client : Uuid) (dest : Dest) (text : Text) (db : Db) {e : Estimate}
    → estimate now client dest text db ≡ ok e
    → (pos 1 ≤ℤ e.unit_sell_price)
      × (1 ≤ e.segments)
      × (e.total ≡ scale e.unit_sell_price e.segments)
unfolding estimate estimate_of
estimate-priced now client dest text db {e} h =
    ok->>= (resolve_tariff now client (product_for_dest dest) db) _ h λ tariff et h0.
      same (estimate_of (product_for_dest dest) (segment_count text) tariff) (got h0)
        (resolve_tariff-positive now client (product_for_dest dest) db et)
        (segment_count_positive text) refl
  where
    got : {x : Estimate} → Result.ok x ≡ ok e → x ≡ e
    got q = cc

    same :
        (x : Estimate)
        → x ≡ e
        → pos 1 ≤ℤ x.unit_sell_price
        → 1 ≤ x.segments
        → x.total ≡ scale x.unit_sell_price x.segments
        → (pos 1 ≤ℤ e.unit_sell_price)
          × (1 ≤ e.segments)
          × (e.total ≡ scale e.unit_sell_price e.segments)
    same x q a b c = rw (sym q) (a, b, c)

-- The price snapshot of a message is the estimate's.
pub record Snapshot (client : Uuid) (e : Estimate) (msg : SmsMessage) : Type 0 where
  pub client_id : msg.client_id ≡ some client
  pub unit_sell_price : msg.unit_sell_price ≡ some e.unit_sell_price
  pub billed_segments : msg.billed_segments ≡ some e.segments
  pub tariff_plan_id : msg.tariff_plan_id ≡ some e.tariff_plan_id
  pub tariff_plan_code : msg.tariff_plan_code ≡ some e.tariff_plan_code
  pub currency : msg.currency ≡ some e.currency

-- The message is reserved, and the amount has moved from available to held.
pub record Reserved (client : Uuid) (amount : ℤ) (msg : SmsMessage) (db : Db) : Type 0 where
  pub before : Wallet
  pub after : Wallet
  pub db_after : Db
  pub reserved : reserve_for_message msg db ≡ ok db_after
  pub wallet_before : get_wallet_by_client_id client db.wallets ≡ some before
  pub wallet_after : get_wallet_by_client_id client db_after.wallets ≡ some after
  pub available : after.available_balance ≡ before.available_balance -ℤ amount
  pub held : after.held_balance ≡ before.held_balance +ℤ amount

-- Where a message's text was estimated, the client can afford the estimate, the message carries the
-- estimate as its price snapshot, its client is not deleted and it was not reserved before, there
-- the reservation succeeds and moves exactly the estimated total from available to held.
pub estimate_reserves :
    (now : ℕ) (client : Uuid) (dest : Dest) (text : Text) (e : Estimate) (msg : SmsMessage)
    (db : Db)
    → Valid db
    → estimate now client dest text db ≡ ok e
    → assert_can_afford client e.total db ≡ ok tt
    → Snapshot client e msg
    → client_deleted client db ≡ false
    → key_used client (hold_sms msg.id) db ≡ false
    → Reserved client e.total msg db
unfolding assert_can_afford reserve_for_message reserve_priced
estimate_reserves now client dest text e msg db v he ha s there free =
    let (positive, some_segments, priced) = estimate-priced now client dest text db he in
    ok->>= (row_or wallet_not_found (get_wallet_by_client_id client db.wallets)) _ ha λ w lw h0.
      let found = row_or-ok wallet_not_found _ lw in
      let enough =
        not_less (ltb_ℤ w.available_balance e.total) (guard-ok _ insufficient_funds h0) in
      let (db', placed, wallet) =
        place_hold_goes client (hold_sms msg.id) e.total e.currency (some msg.id) none db w v found
          enough free in
      record {
        before = w;
        after = rebalanced w (w.available_balance -ℤ e.total) (w.held_balance +ℤ e.total);
        db_after = db';
        reserved =
            rw
              (
                s.client_id,
                there,
                s.unit_sell_price,
                s.billed_segments,
                s.tariff_plan_id,
                s.tariff_plan_code,
                s.currency,
                scale_positive e.unit_sell_price e.segments positive some_segments,
                free,
              )
              (rw priced at placed);
        wallet_before = found;
        wallet_after = wallet;
        available = refl;
        held = refl;
      }
  where
    not_less : (b : Bool) → not b ≡ true → b ≡ false
    not_less b h = ground arith
