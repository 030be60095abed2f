-- ===== src/Messaging/Tests.antt =====
-- A message to a Russian number, sent twice with one key.
use sms.Prelude.{◌≡◌, refl, ◌∙◌, Option, true, false, some, none, [], ◌∷◌}
use sms.Prelude.Int.{◌+ℤ◌, ◌-ℤ◌, scale}
use sms.Prelude.Text.{codes, text_eq, trim_space, trim_left, is_digit}
use sms.Store.Types.{Db, SmsMessage}
use sms.Store.Errors.{ok, unique_violation}
use sms.Store.Wallets.{get_wallet_by_client_id, lock_wallet_by_client_id, update_wallet_balances}
use sms.Store.Ledger.{get_wallet_tx_by_idempotency, insert_wallet_transaction, key_eq}
use sms.Store.Rows.{get_client_by_id}
use sms.Store.Tariffs.{get_client_tariff}
use sms.Store.Queue.{
  get_assigned_number_for_client, get_sms_message_by_idempotency, insert_sms_message,
  insert_send_job, message_key_taken,
}
use sms.Msisdn.{normalize_sender, normalize_dest, digits_only, sender_of_digits}
use sms.Billing.Money.{must_positive, apply_hold}
use sms.Billing.Pdu.{segment_count, is_gsm7, gsm7_septets, utf16_units, in_basic, in_escape}
use sms.Billing.Post.{client_deleted, key_used, post_balances, place_hold}
use sms.Billing.Sms.{reserve_for_message, reserve_priced}
use sms.Billing.Tariffs.{estimate, estimate_of, resolve_tariff, product_for_dest}
use sms.Billing.Ledger.Invariant.{Valid}
use sms.Billing.Ledger.AffordTests.{funded, funded-Valid}
use sms.Billing.Ledger.AffordTests.{offer}
use sms.Msisdn.{Dest}
use sms.Billing.Tariffs.{Estimate}
use sms.Messaging.{
  Draft, message_row, Service, EnqueueInput, Outcome, failed, enqueued, check_text, check_input,
  store, replay, finish, return_existing, enqueue_priced, enqueue_draft, enqueue,
}
use sms.Messaging.Queued.{Queued, enqueue-Queued}
use sms.Messaging.Again.{enqueue-again}

abbrev setup : Service
setup = record { int_out = none; has_billing = true; survives = false }

abbrev input : EnqueueInput
input = record {
  client_id = 7;
  from = codes "8 (999) 111-00-00";
  to = codes "+7 999 111-22-33";
  text = codes " Hi ";
  idempotency_key = some (codes "order-1");
  campaign_id = none;
}

-- The client's number.
abbrev with_number : Db → Db
with_number db = record db {
  def_numbers = record { id = 60; msisdn = codes "79991110000"; assigned = true } ∷ [];
  number_assignments = record { def_number_id = 60; client_id = 7; is_open = true } ∷ [];
}

abbrev message_of : Outcome → Option SmsMessage
message_of (enqueued m d) = some m
message_of _ = none

abbrev db_of : Db → Outcome → Db
db_of db (enqueued m d) = d
db_of db _ = db

ready : Db
unfolding funded
ready = with_number funded

ready-Valid : Valid ready
unfolding ready
ready-Valid = record {
  keyed = funded-Valid.keyed;
  first = funded-Valid.first;
  ids = funded-Valid.ids;
  proper = funded-Valid.proper;
  linked = funded-Valid.linked;
  balanced = funded-Valid.balanced;
  covered = funded-Valid.covered;
}

first_run : Outcome
unfolding ready enqueue enqueue_draft enqueue_priced check_input check_text store replay finish
    return_existing get_assigned_number_for_client get_sms_message_by_idempotency insert_sms_message
    insert_send_job normalize_sender normalize_dest digits_only sender_of_digits is_digit
    lock_wallet_by_client_id update_wallet_balances get_wallet_tx_by_idempotency
    insert_wallet_transaction key_eq get_wallet_by_client_id get_client_by_id get_client_tariff
    must_positive apply_hold client_deleted key_used post_balances place_hold reserve_for_message
    reserve_priced ◌+ℤ◌ ◌-ℤ◌ scale text_eq trim_space trim_left estimate estimate_of resolve_tariff
    product_for_dest segment_count is_gsm7 gsm7_septets utf16_units in_basic in_escape
first_run = enqueue setup 5 input ready

abbrev draft : Draft
draft = record {
  from = codes "79991110000";
  dest = record { msisdn = codes "79991112233"; international = false };
  text = codes "Hi";
}

sent : SmsMessage
sent = record (message_row 5 input draft offer) { id = 101 }

after : Db
unfolding first_run
after = db_of ready first_run

accepted_once : enqueue setup 5 input ready ≡ enqueued sent after
unfolding first_run sent after
accepted_once = refl

unused : message_key_taken (some 7) (some (codes "order-1")) ready.sms_messages ≡ false
unfolding first_run
unused = refl

enqueue-Queued_example : Queued setup 5 input sent ready after
enqueue-Queued_example =
    enqueue-Queued setup 5 input ready sent after ready-Valid unused accepted_once

at_home : estimate 9 7 draft.dest (trim_space input.text) after ≡ ok offer
unfolding after first_run
at_home = refl

to_home : some draft.dest ≡ normalize_dest input.to
unfolding first_run
to_home = refl

priced_later :
    (dest : Dest)
    → normalize_dest input.to ≡ some dest
    → (est : Estimate) × (estimate 9 7 dest (trim_space input.text) after ≡ ok est)
priced_later dest e = (offer, rw (dest_of (to_home ∙ e)) at_home)
  where
    dest_of : {d : Dest} → Option.some draft.dest ≡ some d → d ≡ draft.dest
    dest_of x = cc

enqueue-again_example : enqueue setup 9 input after ≡ failed unique_violation
enqueue-again_example =
    enqueue-again setup 5 9 input (codes "order-1") ready sent after ready-Valid refl accepted_once
      priced_later
