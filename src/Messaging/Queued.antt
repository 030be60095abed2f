-- ===== src/Messaging/Queued.antt =====
-- What an accepted message leaves in the database.
use sms.Prelude.{
  ℕ, suc, ◌≡◌, refl, sym, ap, Bool, true, false, Option, some, ◌∷◌, any, inl, inr, Bool-cases, ◌==◌,
}
use sms.Store.Types.{Uuid, hold_sms, SmsMessage, SendJob, DefNumber, Db}
use sms.Store.Errors.{Result, ok, err, ok->>=, guard, validation, unique_violation}
use sms.Store.Queue.{
  get_assigned_number_for_client, insert_sms_message, insert_send_job, message_key_taken, new_job,
}
use sms.Billing.Post.{client_deleted, key_used}
use sms.Billing.Sms.{reserve_for_message}
use sms.Billing.Tariffs.{Estimate, estimate}
use sms.Billing.Ledger.Invariant.{Valid}
use sms.Billing.Ledger.Moves.{Moves-Valid, next-Valid}
use sms.Billing.Ledger.SmsMoves.{reserve_for_message-Moves}
use sms.Messaging.{
  Service, EnqueueInput, Draft, enqueued, message_row, finish, store, enqueue_priced, enqueue,
}
use sms.Messaging.Reserving.{reserve_for_message-Taken}
use sms.Messaging.Checked.{Drafted, check_input-enqueued, enqueue_draft-enqueued}

insert_sms_message-fresh :
    (row : SmsMessage) (db : Db)
    → message_key_taken row.client_id row.idempotency_key db.sms_messages ≡ false
    → insert_sms_message row db
      ≡ ok (
        record row { id = db.next_id },
        record db {
          sms_messages = record row { id = db.next_id } ∷ db.sms_messages;
          next_id = suc db.next_id;
        },
      )
unfolding insert_sms_message
insert_sms_message-fresh row db e = rw e refl

-- The job of a message that has none.
insert_send_job-ok :
    (message : Uuid) (client : Option Uuid) (now : ℕ) (db : Db) {db' : Db}
    → insert_send_job message client now db ≡ ok db'
    → db' ≡ record db {
      send_jobs = new_job db.next_id message client now ∷ db.send_jobs;
      next_id = suc db.next_id;
    }
unfolding insert_send_job
insert_send_job-ok message client now db h =
    elim (Bool-cases (any (λ (j : SendJob). j.sms_message_id == message) db.send_jobs)) [
      | inl taken ↦ absurd (refused (rw taken at h))
      | inr free ↦ same (rw free at h)
    ]
  where
    refused : {d : Db} → ◌≡◌ {A = Result Db} (err unique_violation) (ok d) → ⊥
    refused x = cc

    same : {c d : Db} → Result.ok c ≡ ok d → d ≡ c
    same x = cc

-- A new message: the row as it was given, its job, and what the reservation did.
pub record Finished (now : ℕ) (client : Uuid) (msg : SmsMessage) (db db' : Db) : Type 0 where
  pub queued : db'.send_jobs ≡ new_job db.next_id msg.id (some client) now ∷ db.send_jobs
  pub messages : db'.sms_messages ≡ db.sms_messages
  pub numbers : db'.def_numbers ≡ db.def_numbers
  pub assignments : db'.number_assignments ≡ db.number_assignments
  pub held : client_deleted client db ≡ false → key_used client (hold_sms msg.id) db' ≡ true
  pub reserved :
      reserve_for_message msg (record db {
        send_jobs = new_job db.next_id msg.id (some client) now ∷ db.send_jobs;
        next_id = suc db.next_id;
      })
      ≡ ok db'
  pub valid : Valid db'
  pub before : Valid (record db {
    send_jobs = new_job db.next_id msg.id (some client) now ∷ db.send_jobs;
    next_id = suc db.next_id;
  })

pub finish-Finished :
    (now : ℕ) (client : Uuid) (msg : SmsMessage) (db : Db) {m : SmsMessage} {db' : Db}
    → Valid db
    → msg.client_id ≡ some client
    → finish now client msg db ≡ ok (m, db')
    → (m ≡ msg) × Finished now client msg db db'
unfolding finish client_deleted
finish-Finished now client msg db {m} {db'} v c h =
    ok->>= (insert_send_job msg.id (some client) now db) _ h λ with_job e1 h1.
      ok->>= (reserve_for_message msg with_job) _ h1 λ reserved e2 h2.
        let (same_msg, same_db) = parts h2 in
        let with = insert_send_job-ok msg.id (some client) now db e1 in
        (same_msg, finished with_job with (rw (sym same_db) at e2))
  where
    parts :
        {a b : SmsMessage} {c d : Db}
        → ◌≡◌ {A = Result (SmsMessage × Db)} (ok (a, c)) (ok (b, d))
        → (b ≡ a) × (d ≡ c)
    parts x = (cc, cc)

    finished :
        (d : Db)
        → d ≡ record db {
          send_jobs = new_job db.next_id msg.id (some client) now ∷ db.send_jobs;
          next_id = suc db.next_id;
        }
        → reserve_for_message msg d ≡ ok db'
        → Finished now client msg db db'
    finished d e r =
        let r' = rw e at r in
        let v' = next-Valid refl refl refl v in
        let t = reserve_for_message-Taken msg client _ v' c r' in
        record {
          queued = ap (λ (x : Db). x.send_jobs) t.0;
          messages = ap (λ (x : Db). x.sms_messages) t.0;
          numbers = ap (λ (x : Db). x.def_numbers) t.0;
          assignments = ap (λ (x : Db). x.number_assignments) t.0;
          held = t.1;
          reserved = r';
          before = v';
          valid = Moves-Valid v' (reserve_for_message-Moves msg _ v' r');
        }

-- A message that is accepted: its row is the normalized input with the price of the estimate and the
-- status queued; its send job is pending; the client's hold for it is there, unless the client is
-- deleted; and the ledger is in order.
pub record Queued (setup : Service) (now : ℕ) (input : EnqueueInput) (msg : SmsMessage)
    (db db' : Db) : Type 0 where
  pub draft : Draft
  pub checked : Drafted setup input draft
  pub number : DefNumber
  pub assigned : get_assigned_number_for_client draft.from input.client_id db ≡ some number
  pub est : Estimate
  pub estimated : estimate now input.client_id draft.dest draft.text db ≡ ok est
  pub row : msg ≡ record (message_row now input draft est) { id = db.next_id }
  pub stored : db'.sms_messages ≡ msg ∷ db.sms_messages
  pub queued :
      db'.send_jobs ≡ new_job (suc db.next_id) db.next_id (some input.client_id) now ∷ db.send_jobs
  pub held :
      client_deleted input.client_id db ≡ false
      → key_used input.client_id (hold_sms db.next_id) db' ≡ true
  pub valid : Valid db'

-- The database once the row is there.
abbrev pub with_row : SmsMessage → Db → Db
with_row row db = record db {
  sms_messages = record row { id = db.next_id } ∷ db.sms_messages;
  next_id = suc db.next_id;
}

pub store-fresh :
    (survives : Bool) (now : ℕ) (row : SmsMessage) (client : Uuid) (db : Db) {msg : SmsMessage}
    {db' : Db}
    → Valid db
    → row.client_id ≡ some client
    → message_key_taken row.client_id row.idempotency_key db.sms_messages ≡ false
    → store survives now row client row.idempotency_key db ≡ ok (msg, db')
    → (msg ≡ record row { id = db.next_id })
      × Finished now client (record row { id = db.next_id }) (with_row row db) db'
unfolding store
store-fresh survives now row client db v c free h =
    finish-Finished now client (record row { id = db.next_id }) (with_row row db)
      (next-Valid refl refl refl v) c (rw (store, insert_sms_message-fresh row db free) at h)

-- Where the ledger is in order and the client has no message with the key of the input, an accepted
-- message is stored as the normalized input with the estimated price, queued with one pending send
-- job and held for, unless the client is deleted, and the ledger stays in order.
pub enqueue-Queued :
    (setup : Service) (now : ℕ) (input : EnqueueInput) (db : Db) (msg : SmsMessage) (db' : Db)
    → Valid db
    → message_key_taken (some input.client_id) input.idempotency_key db.sms_messages ≡ false
    → enqueue setup now input db ≡ enqueued msg db'
    → Queued setup now input msg db db'
unfolding enqueue enqueue_priced client_deleted
enqueue-Queued setup now input db msg db' v free h =
    let (draft, checked, went) = check_input-enqueued setup input _ h in
    let ((number, assigned), priced) = enqueue_draft-enqueued setup now input db draft went in
    ok->>= (guard setup.has_billing validation) _ priced λ u e0 h0.
      ok->>= (estimate now input.client_id draft.dest draft.text db) _ h0 λ est e1 h1.
        let (row, done) =
          store-fresh setup.survives now (message_row now input draft est) input.client_id db v refl
            free h1 in
        record {
          draft = draft;
          checked = checked;
          number = number;
          assigned = assigned;
          est = est;
          estimated = e1;
          row = row;
          stored = rw row done.messages;
          queued = done.queued;
          held = done.held;
          valid = done.valid;
        }
