-- ===== src/Store/Queue.antt =====
-- internal/db/sqlc/messages.sql.go, outbox.sql.go: the statements that put a message in the queue.
use sms.Prelude.{
  suc, ◌&&◌, Bool, false, Option, none, some, List, ◌∷◌, any, find_first, ◌==◌, if◌then◌else◌,
}
use sms.Prelude.Text.{Text, text_eq}
use sms.Store.Types.{
  Uuid, SmsMessage, SendJob, send_pending, DefNumber, NumberAssignment, Db, is_id,
}
use sms.Store.Errors.{Result, ok, err, unique_violation}
use sms.Store.Messages.{holds_text, open_of}

-- The number of the inventory that is assigned, and to this client.
unfoldable pub get_assigned_number_for_client : Text → Uuid → Db → Option DefNumber
get_assigned_number_for_client msisdn client db =
    find_first
      (λ (n : DefNumber).
        text_eq n.msisdn msisdn
        && n.assigned
        && any (λ (a : NumberAssignment). open_of n.id a && a.client_id == client)
            db.number_assignments)
      db.def_numbers

abbrev pub has_message_key : Option Uuid → Text → SmsMessage → Bool
has_message_key none key m = false
has_message_key (some client) key m = is_id m.client_id client && holds_text m.idempotency_key key

-- The unique index on (client_id, idempotency_key) counts only rows that have a key.
abbrev pub message_key_taken : Option Uuid → Option Text → List SmsMessage → Bool
message_key_taken client none ms = false
message_key_taken client (some key) ms = any (has_message_key client key) ms

unfoldable pub get_sms_message_by_idempotency : Uuid → Text → List SmsMessage → Option SmsMessage
get_sms_message_by_idempotency client key = find_first (has_message_key (some client) key)

-- The row that is inserted, with the id that the database generates.
unfoldable pub insert_sms_message : SmsMessage → Db → Result (SmsMessage × Db)
insert_sms_message row db =
    if message_key_taken row.client_id row.idempotency_key db.sms_messages
    then err unique_violation
    else ok (
      record row { id = db.next_id },
      record db {
        sms_messages = record row { id = db.next_id } ∷ db.sms_messages;
        next_id = suc db.next_id;
      },
    )

abbrev pub new_job : Uuid → Uuid → Option Uuid → Uuid → SendJob
new_job id message client now = record {
  id = id;
  sms_message_id = message;
  client_id = client;
  status = send_pending;
  attempt = 0;
  available_at = now;
  locked_at = none;
  locked_by = none;
  last_error = none;
}

-- available_at is now() by default; a message has one job at most.
unfoldable pub insert_send_job : Uuid → Option Uuid → Uuid → Db → Result Db
insert_send_job message client now db =
    if any (λ (j : SendJob). j.sms_message_id == message) db.send_jobs
    then err unique_violation
    else ok (record db {
      send_jobs = new_job db.next_id message client now ∷ db.send_jobs;
      next_id = suc db.next_id;
    })
