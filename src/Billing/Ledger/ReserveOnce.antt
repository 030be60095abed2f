-- ===== src/Billing/Ledger/ReserveOnce.antt =====
-- A message or a lookup job that is reserved again, its hold's key taken, changes nothing more.
use sms.Prelude.{◌≡◌, refl, ◌∙◌, inl, inr, true, not, some, none, Bool-cases, if◌then◌else◌, ltb}
use sms.Prelude.Int.{scale}
use sms.Store.Types.{Uuid, Key, hold_sms, hold_lookup_job, SmsMessage, LookupJob, Db}
use sms.Store.Errors.{Result, ok, row_or, guard, ok->>=, validation, price_snapshot_missing}
use sms.Billing.Money.{must_positive}
use sms.Billing.Post.{client_deleted, key_used}
use sms.Billing.Sms.{reserve_priced, reserve_for_message}
use sms.Billing.Lookup.{reserve_for_lookup_job}
use sms.Billing.Ledger.Invariant.{Valid}
use sms.Billing.Ledger.Once.{Keeps, unless_taken, place_hold-Keeps}

-- With the clients as before, a deleted client is deleted again.
client_deleted_same :
    (client : Uuid) (db db' : Db)
    → db'.clients ≡ db.clients
    → client_deleted client db' ≡ client_deleted client db
unfolding client_deleted
client_deleted_same client db db' e = rw e refl

-- The test for a deleted client comes out the same the second time.
unless_gone :
    (client : Uuid) (r r' : Result Db) (db db' : Db)
    → (if client_deleted client db then ok db else r) ≡ ok db'
    → (r ≡ ok db' → (r' ≡ ok db') × (db'.clients ≡ db.clients))
    → (if client_deleted client db' then ok db' else r') ≡ ok db'
unless_gone client r r' db db' h k = elim (Bool-cases (client_deleted client db)) [
  | inl gone ↦ rw (still (ok_eq (rw gone at h)) gone) refl
  | inr there ↦
      let again = k (rw there at h) in
      rw (client_deleted_same client db db' again.1 ∙ there) again.0
]
  where
    ok_eq : Result.ok db ≡ ok db' → db' ≡ db
    ok_eq x = cc

    still : db' ≡ db → client_deleted client db ≡ true → client_deleted client db' ≡ true
    still e gone = rw e gone

taken_again :
    (client : Uuid) (key : Key) (r : Result Db) {db db' : Db}
    → Keeps client key db db'
    → ((if key_used client key db' then ok db' else r) ≡ ok db') × (db'.clients ≡ db.clients)
taken_again client key r k = (rw k.taken refl, k.same_clients)

reserve_priced_again :
    (msg : SmsMessage) (client : Uuid) (db db' : Db)
    → Valid db
    → reserve_priced msg client db ≡ ok db'
    → (reserve_priced msg client db' ≡ ok db') × (db'.clients ≡ db.clients)
unfolding reserve_priced
reserve_priced_again msg client db db' v h =
    ok->>= (row_or price_snapshot_missing msg.unit_sell_price) _ h λ price e1 h1.
      ok->>= (row_or price_snapshot_missing msg.billed_segments) _ h1 λ segments e2 h2.
        ok->>= (row_or price_snapshot_missing msg.tariff_plan_id) _ h2 λ plan e3 h3.
          ok->>= (row_or price_snapshot_missing msg.tariff_plan_code) _ h3 λ code e4 h4.
            ok->>= (row_or price_snapshot_missing msg.currency) _ h4 λ currency e5 h5.
              ok->>= (must_positive (scale price segments)) _ h5 λ u e6 h6.
                rw (e1, e2, e3, e4, e5, e6)
                  (taken_again client (hold_sms msg.id) _ (
                    unless_taken client (hold_sms msg.id) _ db h6 (
                      place_hold-Keeps client (hold_sms msg.id) _ currency (some msg.id) none db
                        v)))

-- A message is reserved once: the reservation that has succeeded succeeds again on the database it
-- has left, and changes nothing.
pub reserve_for_message_twice :
    (msg : SmsMessage) (db db' : Db)
    → Valid db
    → reserve_for_message msg db ≡ ok db'
    → reserve_for_message msg db' ≡ ok db'
unfolding reserve_for_message
reserve_for_message_twice msg db db' v h =
    ok->>= (row_or validation msg.client_id) _ h λ client e h0. rw e (
      unless_gone client (reserve_priced msg client db) (reserve_priced msg client db') db db' h0
        (reserve_priced_again msg client db db' v))

-- So is a lookup job.
pub reserve_for_lookup_job_twice :
    (job : LookupJob) (db db' : Db)
    → Valid db
    → reserve_for_lookup_job job db ≡ ok db'
    → reserve_for_lookup_job job db' ≡ ok db'
unfolding reserve_for_lookup_job
reserve_for_lookup_job_twice job db db' v h = unless_gone job.client_id _ _ db db' h λ h0.
    ok->>= (guard (not (ltb job.item_count 1)) validation) _ h0 λ u e0 h1.
      ok->>= (row_or price_snapshot_missing job.unit_sell_price) _ h1 λ price e1 h2.
        ok->>= (row_or price_snapshot_missing job.tariff_plan_id) _ h2 λ plan e2 h3.
          ok->>= (row_or price_snapshot_missing job.tariff_plan_code) _ h3 λ code e3 h4.
            ok->>= (must_positive (scale price job.item_count)) _ h4 λ u' e4 h5.
              rw (e0, e1, e2, e3, e4)
                (taken_again job.client_id (hold_lookup_job job.id) _ (
                  unless_taken job.client_id (hold_lookup_job job.id) _ db h5 (
                    place_hold-Keeps job.client_id (hold_lookup_job job.id) _ job.currency none
                      (some job.id) db v)))
