-- ===== src/Messaging.antt =====
-- internal/messaging/service.go: a client's message is checked, priced, stored with its send job and
-- paid for by a hold, in one transaction.
pub mod Reserving
pub mod Checked
pub mod Queued
pub mod Replay
pub mod Again
mod Tests
use sms.Prelude.{
  ℕ, drop, Bool, true, false, ◌&&◌, not, Option, none, some, List, [], ◌∷◌, length, ltb, leb, take,
  filter_by, ◌||◌, ◌==◌, if◌then◌else◌,
}
use sms.Prelude.Int.{ℤ, pos, pos_part, ltb_ℤ}
use sms.Prelude.Text.{Text, trim_space}
use sms.Store.Types.{
  Uuid, SmsMessage, SmsDirection, outbound, inbound, sms_queued, Db, is_id, BillingAction,
}
use sms.Store.Errors.{
  Err, Result, ok, err, ◌>>=◌, row_or, price_snapshot_missing, unique_violation, validation, guard,
}
use sms.Store.Queue.{
  get_assigned_number_for_client, get_sms_message_by_idempotency, insert_sms_message,
  insert_send_job,
}
use sms.Msisdn.{Dest, normalize_sender, normalize_dest}
use sms.Billing.Tariffs.{Estimate, estimate}
use sms.Billing.Sms.{reserve_for_message}

abbrev pub max_text_runes : ℕ
max_text_runes = 1000

pub record EnqueueInput : Type 0 where
  pub client_id : Uuid
  pub from : Text
  pub to : Text
  pub text : Text
  pub idempotency_key : Option Text
  pub campaign_id : Option Uuid

-- What comes back: an error of this package, one of a statement or of billing, or the message and
-- the database that the transaction leaves.
pub data Outcome : Type 0 where
  invalid not_assigned international_off : Outcome
  failed : Err → Outcome
  enqueued : SmsMessage → Db → Outcome

-- The input, normalized.
pub record Draft : Type 0 where
  pub from : Text
  pub dest : Dest
  pub text : Text

-- What the service is built with: the policy's SMSDirections.IntOut (`none` where there is no policy
-- or it cannot be read), whether there is billing, and whether a transaction goes on after a
-- statement that was refused (PostgreSQL's is aborted, and refuses every further statement).
pub record Service : Type 0 where
  pub int_out : Option Bool
  pub has_billing : Bool
  pub survives : Bool

abbrev pub allows : Option Bool → Bool
allows none = false
allows (some b) = b

abbrev pub is_blank_text : Text → Bool
is_blank_text [] = true
is_blank_text (r ∷ s) = false

-- The checks of the text and of the direction.
unfoldable pub check_text : Service → Text → Dest → Text → (Draft → Outcome) → Outcome
check_text setup from dest text next =
    if is_blank_text text
    then invalid
    else if ltb max_text_runes (length text)
    then invalid
    else if dest.international && not (allows setup.int_out)
    then international_off
    else next (record { from = from; dest = dest; text = text })

unfoldable pub check_input : Service → EnqueueInput → (Draft → Outcome) → Outcome
check_input setup input next = elim (normalize_sender input.from) [
  | none ↦ invalid
  | some from ↦ elim (normalize_dest input.to) [
    | none ↦ invalid
    | some dest ↦ check_text setup from dest (trim_space input.text) next
  ]
]

-- InsertSmsMessageParams, as the row it makes; the status is 'queued'.
abbrev pub message_row : ℕ → EnqueueInput → Draft → Estimate → SmsMessage
message_row now input draft est = record {
  id = 0;
  client_id = some input.client_id;
  direction = outbound;
  from_msisdn = draft.from;
  to_msisdn = draft.dest.msisdn;
  text = draft.text;
  provider_sms_id = none;
  provider_status = none;
  pdu_count = none;
  campaign_id = input.campaign_id;
  status = sms_queued;
  idempotency_key = input.idempotency_key;
  created_at = now;
  accepted = false;
  sent = false;
  delivered = false;
  has_failed = false;
  unit_sell_price = some est.unit_sell_price;
  billed_segments = some est.segments;
  tariff_plan_id = some est.tariff_plan_id;
  tariff_plan_code = some est.tariff_plan_code;
  currency = some est.currency;
  billing_action = none;
}

-- The message that has the key already is reserved and returned.
unfoldable pub return_existing : SmsMessage → Db → Result (SmsMessage × Db)
return_existing existing db = do
  price ← row_or price_snapshot_missing existing.unit_sell_price
  reserved ← reserve_for_message existing db
  ok (existing, reserved)

-- After a unique violation: with a key, the row that has it is read in the same transaction.
unfoldable pub replay : Bool → Uuid → Option Text → Db → Result (SmsMessage × Db)
replay survives client none db = err unique_violation
replay false client (some key) db = err unique_violation
replay true client (some key) db =
    elim (get_sms_message_by_idempotency client key db.sms_messages) [
      | none ↦ err unique_violation
      | some existing ↦ return_existing existing db
    ]

-- The new message gets its send job and its hold.
unfoldable pub finish : ℕ → Uuid → SmsMessage → Db → Result (SmsMessage × Db)
finish now client msg db = do
  with_job ← insert_send_job msg.id (some client) now db
  reserved ← reserve_for_message msg with_job
  ok (msg, reserved)

-- The one error that InsertSmsMessage is refused with is the unique violation.
unfoldable pub store : Bool → ℕ → SmsMessage → Uuid → Option Text → Db → Result (SmsMessage × Db)
store survives now row client key db = elim (insert_sms_message row db) [
  | err e ↦ replay survives client key db
  | ok inserted ↦ finish now client inserted.0 inserted.1
]

-- From the billing test on.
unfoldable pub enqueue_priced : Service → ℕ → EnqueueInput → Draft → Db → Result (SmsMessage × Db)
enqueue_priced setup now input draft db = do
  billed ← guard setup.has_billing validation
  est ← estimate now input.client_id draft.dest draft.text db
  store setup.survives now (message_row now input draft est) input.client_id input.idempotency_key
      db

abbrev pub outcome : Result (SmsMessage × Db) → Outcome
outcome (err e) = failed e
outcome (ok (msg, db)) = enqueued msg db

unfoldable pub enqueue_draft : Service → ℕ → EnqueueInput → Db → Draft → Outcome
enqueue_draft setup now input db draft =
    elim (get_assigned_number_for_client draft.from input.client_id db) [
      | none ↦ not_assigned
      | some n ↦ outcome (enqueue_priced setup now input draft db)
    ]

-- A failed outcome rolls the transaction back.
unfoldable pub enqueue : Service → ℕ → EnqueueInput → Db → Outcome
enqueue setup now input db = check_input setup input (enqueue_draft setup now input db)

-- `none` is ErrNotFound.
unfoldable pub get_for_client : Uuid → Uuid → List SmsMessage → Option SmsMessage
get_for_client client id [] = none
get_for_client client id (m ∷ ms) =
    if m.id == id && is_id m.client_id client then some m else get_for_client client id ms

-- The page that ListForClient asks for: int32 numbers.
unfoldable pub page_limit : ℤ → ℤ
page_limit limit = if ltb_ℤ limit (pos 1) || ltb_ℤ (pos 100) limit then pos 50 else limit

unfoldable pub page_offset : ℤ → ℤ
page_offset offset = if ltb_ℤ offset (pos 0) then pos 0 else offset

abbrev pub direction_eq : SmsDirection → SmsDirection → Bool
direction_eq outbound outbound = true
direction_eq inbound inbound = true
direction_eq _ _ = false

abbrev pub is_direct : SmsMessage → Bool
is_direct m = elim m.campaign_id [ none ↦ true | some c ↦ false ]

abbrev pub has_direction : Option SmsDirection → SmsMessage → Bool
has_direction none m = true
has_direction (some d) m = direction_eq m.direction d

-- The page of a client's messages, newest first.
unfoldable pub list_for_client :
    Uuid → Option SmsDirection → Bool → ℤ → ℤ → List SmsMessage → List SmsMessage
list_for_client client direction only_direct limit offset ms = take (pos_part (page_limit limit)) (
    drop (pos_part (page_offset offset)) (
      filter_by
        (λ (m : SmsMessage).
          is_id m.client_id client && has_direction direction m && (not only_direct || is_direct m))
        ms))
