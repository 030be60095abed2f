-- ===== src/Messaging/Again.antt =====
-- A message that is sent again with its idempotency key.
use sms.Prelude.{ℕ, ◌≡◌, refl, ap, ◌∙◌, Bool, true, false, some, if◌then◌else◌}
use sms.Prelude.Text.{Text, trim_space}
use sms.Store.Types.{Uuid, SmsMessage, DefNumber, Db}
use sms.Store.Errors.{ok, err, ok->>=, guard, validation, unique_violation}
use sms.Store.Queue.{get_assigned_number_for_client}
use sms.Msisdn.{Dest, normalize_dest}
use sms.Billing.Tariffs.{Estimate, estimate}
use sms.Billing.Ledger.Invariant.{Valid}
use sms.Messaging.{
  Service, EnqueueInput, Draft, failed, enqueued, message_row, store, enqueue_priced, outcome,
  enqueue_draft, enqueue,
}
use sms.Messaging.Checked.{check_input-enqueued, enqueue_draft-enqueued}
use sms.Messaging.Replay.{Left, store-taken, store-Left}
use sms.Messaging.Checked.{check_input-Drafted}

same_number :
    (from : Text) (client : Uuid) (db db' : Db) {n : DefNumber}
    → db'.def_numbers ≡ db.def_numbers
    → db'.number_assignments ≡ db.number_assignments
    → get_assigned_number_for_client from client db ≡ some n
    → get_assigned_number_for_client from client db' ≡ some n
unfolding get_assigned_number_for_client
same_number from client db db' ns held e = rw (ns, held) e

priced_again :
    (setup : Service) (now : ℕ) (input : EnqueueInput) (key : Text) (draft : Draft) (est : Estimate)
    (msg : SmsMessage) (db db' : Db) {u : Unit {0}}
    → guard setup.has_billing validation ≡ ok u
    → input.idempotency_key ≡ some key
    → estimate now input.client_id draft.dest draft.text db' ≡ ok est
    → Left input.client_id key msg db db'
    → outcome (enqueue_priced setup now input draft db')
      ≡ (if setup.survives then enqueued msg db' else failed unique_violation)
unfolding enqueue_priced
priced_again setup now input key draft est msg db db' b k e l =
    rw
      (
        b,
        e,
        ap (λ o. store setup.survives now (message_row now input draft est) input.client_id o db')
            k,
        store-taken setup.survives now (message_row now input draft est) input.client_id key db' msg
            l.price refl k l.there l.priced l.again,
      )
      (told setup.survives)
  where
    told :
        (s : Bool)
        → outcome (if s then ok (msg, db') else err unique_violation)
          ≡ (if s then enqueued msg db' else failed unique_violation)
    told true = refl
    told false = refl

-- Where the ledger is in order and an input with an idempotency key was accepted, the same input,
-- sent again while its number and text can still be priced, changes nothing: it gets the message of
-- the first time and the database as it is, where a transaction goes on after a unique violation, and
-- is refused with the unique violation where the transaction is aborted by it.
pub enqueue-again :
    (setup : Service) (now later : ℕ) (input : EnqueueInput) (key : Text) (db : Db)
    (msg : SmsMessage) (db' : Db)
    → Valid db
    → input.idempotency_key ≡ some key
    → enqueue setup now input db ≡ enqueued msg db'
    → ((dest : Dest)
        → normalize_dest input.to ≡ some dest
        → (est : Estimate) × (estimate later input.client_id dest (trim_space input.text) db'
            ≡ ok est))
    → enqueue setup later input db'
      ≡ (if setup.survives then enqueued msg db' else failed unique_violation)
unfolding enqueue enqueue_priced enqueue_draft
enqueue-again setup now later input key db msg db' v k h price =
    let (draft, checked, went) = check_input-enqueued setup input _ h in
    let ((number, assigned), priced) = enqueue_draft-enqueued setup now input db draft went in
    ok->>= (guard setup.has_billing validation) _ priced λ u e0 h0.
      ok->>= (estimate now input.client_id draft.dest draft.text db) _ h0 λ est e1 h1.
        let left =
          store-Left setup.survives now (message_row now input draft est) input.client_id key _ db
            input.idempotency_key v refl refl k refl h1 in
        let (est', e2) = price draft.dest checked.dest in
        check_input-Drafted setup input draft _ checked
        ∙ rw
            (
              enqueue_draft,
              same_number draft.from input.client_id db db' left.numbers left.assignments assigned,
            )
            (priced_again setup later input key draft est' msg db db' e0 k (rw checked.text e2)
              left)
