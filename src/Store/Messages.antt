-- ===== src/Store/Messages.antt =====
-- internal/db/sqlc/messages.sql.go: the statements on sms_messages that move a message's status.
use sms.Prelude.{
  ℕ, suc, find_first, Bool, true, false, ◌&&◌, ◌||◌, not, Option, none, some, List, [], ◌∷◌, any,
  take, filter_by, ltb, ◌==◌, if◌then◌else◌,
}
use mathlib.Core.List.{reverse}
use mathlib.Core.Option
use sms.Prelude.Text.{Text, text_eq}
use sms.Store.Types.{
  Uuid, SmsStatus, sms_queued, sms_accepted, sms_sent, sms_delivered, sms_failed, SmsDirection,
  outbound, inbound, SmsMessage, DefNumber, NumberAssignment, Db,
}
use sms.Store.Errors.{Result, ok, err, no_rows, unique_violation}

-- COALESCE(a, b)
abbrev pub coalesce {ℓ} : {A : Type ℓ} → Option A → Option A → Option A
coalesce none b = b
coalesce (some a) b = some a

abbrev pub not_sent_yet : SmsStatus → Bool
not_sent_yet sms_queued = true
not_sent_yet sms_accepted = true
not_sent_yet _ = false

abbrev pub is_unfinished : SmsStatus → Bool
is_unfinished sms_queued = true
is_unfinished sms_accepted = true
is_unfinished sms_sent = true
is_unfinished _ = false

abbrev pub holds_text : Option Text → Text → Bool
holds_text none t = false
holds_text (some s) t = text_eq s t

-- The unique index on provider_sms_id: another row has it.
unfoldable pub provider_id_taken : Uuid → Option Text → List SmsMessage → Bool
provider_id_taken id none ms = false
provider_id_taken id (some pid) ms =
    any (λ (m : SmsMessage). not (m.id == id) && holds_text m.provider_sms_id pid) ms

-- UPDATE … WHERE id = … AND a test of the status; `none` is no row.
unfoldable pub update_message :
    (SmsMessage → SmsMessage)
    → (SmsStatus → Bool)
    → Uuid
    → List SmsMessage
    → Option (List SmsMessage)
update_message set may id [] = none
update_message set may id (m ∷ ms) =
    if m.id == id && may m.status
    then some (set m ∷ ms)
    else elim (update_message set may id ms) [ none ↦ none | some rest ↦ some (m ∷ rest) ]

abbrev updated : Bool → Option (List SmsMessage) → Result (List SmsMessage)
updated taken none = err no_rows
updated taken (some ms) = if taken then err unique_violation else ok ms

abbrev pub accepted_row : Option Text → SmsMessage → SmsMessage
accepted_row pid m = record m {
  status = sms_accepted;
  provider_sms_id = coalesce pid m.provider_sms_id;
  accepted = true;
}

-- UpdateSmsMessageAccepted; no caller gives a pdu_count.
unfoldable pub update_sms_message_accepted :
    Option Text → Uuid → List SmsMessage → Result (List SmsMessage)
update_sms_message_accepted pid id ms =
    updated (provider_id_taken id pid ms) (update_message (accepted_row pid) not_sent_yet id ms)

abbrev pub failed_row : Text → SmsMessage → SmsMessage
failed_row provider_status m = record m {
  status = sms_failed;
  provider_status = some provider_status;
  has_failed = true;
}

unfoldable pub update_sms_message_failed : Text → Uuid → List SmsMessage → Result (List SmsMessage)
update_sms_message_failed provider_status id ms =
    updated false (update_message (failed_row provider_status) is_unfinished id ms)

abbrev pub statistic_status : Bool → Bool → SmsStatus → SmsStatus
statistic_status true sent status = sms_delivered
statistic_status false true status = sms_sent
statistic_status false false status = status

abbrev pub statistic_row : Option Text → Option ℕ → Bool → Bool → SmsMessage → SmsMessage
statistic_row pid pdu was_delivered was_sent m = record m {
  provider_sms_id = coalesce m.provider_sms_id pid;
  pdu_count = coalesce pdu m.pdu_count;
  status = statistic_status was_delivered was_sent m.status;
  accepted = true;
  sent = was_sent || was_delivered || m.sent;
  delivered = was_delivered || m.delivered;
}

-- UpdateSmsMessageFromStatistic: a provider id that the row has already is kept.
unfoldable pub keeps_id : Uuid → List SmsMessage → Bool
keeps_id id ms =
    any (λ (m : SmsMessage). m.id == id && elim m.provider_sms_id [ none ↦ false | some p ↦ true ])
      ms

unfoldable pub update_sms_message_from_statistic :
    Option Text → Option ℕ → Bool → Bool → Uuid → List SmsMessage → Result (List SmsMessage)
update_sms_message_from_statistic pid pdu was_delivered was_sent id ms =
    updated (not (keeps_id id ms) && provider_id_taken id pid ms)
      (update_message (statistic_row pid pdu was_delivered was_sent) is_unfinished id ms)

abbrev is_outbound : SmsDirection → Bool
is_outbound outbound = true
is_outbound inbound = false

abbrev is_on_the_way : SmsStatus → Bool
is_on_the_way sms_accepted = true
is_on_the_way sms_sent = true
is_on_the_way _ = false

abbrev is_stale : ℕ → SmsMessage → Bool
is_stale before m = is_outbound m.direction && is_on_the_way m.status && ltb m.created_at before

-- ORDER BY created_at LIMIT $2: oldest first.
unfoldable pub list_stale_outbound : ℕ → ℕ → List SmsMessage → List SmsMessage
list_stale_outbound before limit ms = take limit (filter_by (is_stale before) (reverse ms))

-- n.id = a.def_number_id AND a.unassigned_at IS NULL
abbrev pub open_of : Uuid → NumberAssignment → Bool
open_of number a = a.def_number_id == number && a.is_open

-- GetOpenAssignmentByMSISDN: the client of the number; the index keeps one open assignment of each.
unfoldable pub get_open_assignment_by_msisdn : Text → Db → Option Uuid
get_open_assignment_by_msisdn msisdn db =
    elim (find_first (λ (n : DefNumber). text_eq n.msisdn msisdn) db.def_numbers) [
      | none ↦ none
      | some n ↦
          Option.map (λ (a : NumberAssignment). a.client_id)
            (find_first (open_of n.id) db.number_assignments)
    ]

abbrev pub has_provider_id : Text → List SmsMessage → Bool
has_provider_id pid ms = any (λ (m : SmsMessage). holds_text m.provider_sms_id pid) ms

-- ON CONFLICT (provider_sms_id) DO NOTHING.
unfoldable pub insert_inbound_message :
    Option Uuid → Text → Text → Text → Text → Option ℕ → ℕ → Db → Db
insert_inbound_message client from to text pid pdu now db =
    if has_provider_id pid db.sms_messages then db else record db {
      sms_messages =
          record {
            id = db.next_id;
            client_id = client;
            direction = inbound;
            from_msisdn = from;
            to_msisdn = to;
            text = text;
            provider_sms_id = some pid;
            provider_status = none;
            pdu_count = pdu;
            campaign_id = none;
            status = sms_delivered;
            idempotency_key = none;
            created_at = now;
            accepted = true;
            sent = false;
            delivered = true;
            has_failed = false;
            unit_sell_price = none;
            billed_segments = none;
            tariff_plan_id = none;
            tariff_plan_code = none;
            currency = none;
            billing_action = none;
          }
          ∷ db.sms_messages;
      next_id = suc db.next_id;
    }
