-- ===== src/Store/Joins.antt =====
-- internal/db/sqlc: the two joins that the billing reapers read.
use mathlib.Core.List.{reverse}
use sms.Prelude.{
  ℕ, Bool, ◌&&◌, Option, none, some, List, [], ◌∷◌, find_first, take, ◌==◌, if◌then◌else◌,
}
use sms.Prelude.Int.{pos, ◌-ℤ◌, ltb_ℤ}
use sms.Store.Types.{
  Uuid, BillingAction, SmsStatus, SendJobStatus, LookupJobStatus, WalletTransaction, SmsMessage,
  SendJob, LookupJob, Db, is_hold,
}
use sms.Store.Ledger.{is_open_hold, sum_settled_against_hold}
use sms.Store.Rows.{get_sms_message_by_id}
use mathlib.Core.Option

pub record ListOpenHoldMessagesRow : Type 0 where
  pub sms_message_id : Uuid
  pub message_status : SmsStatus
  pub accepted : Bool  -- accepted_at is not null
  pub billing_action : Option BillingAction
  pub job_status : Option SendJobStatus

job_status_of : Uuid → List SendJob → Option SendJobStatus
job_status_of message jobs =
    Option.map (λ (j : SendJob). j.status)
      (find_first (λ (j : SendJob). j.sms_message_id == message) jobs)

-- The hold joined with its message and, where there is one, its send job.
hold_message_row : Db → WalletTransaction → Option ListOpenHoldMessagesRow
unfolding job_status_of
hold_message_row db h = Option.bind h.sms_message_id λ message.
    Option.map
      (λ (m : SmsMessage). record {
        sms_message_id = message;
        message_status = m.status;
        accepted = m.accepted;
        billing_action = m.billing_action;
        job_status = job_status_of message db.send_jobs;
      })
      (get_sms_message_by_id message db.sms_messages)

-- WHERE and JOIN, in the order of the rows given.
abbrev pub select {ℓ κ} : {A : Type ℓ} {B : Type κ} → (A → Bool) → (A → Option B) → List A → List B
select p f [] = []
select p f (x ∷ xs) =
    if p x then elim (f x) [ none ↦ select p f xs | some y ↦ y ∷ select p f xs ] else select p f xs

-- ORDER BY created_at LIMIT $1: oldest first.
unfoldable pub list_open_hold_messages : ℕ → Db → List ListOpenHoldMessagesRow
unfolding hold_message_row get_sms_message_by_id
list_open_hold_messages limit db = take limit (
    select (is_open_hold db.wallet_transactions) (hold_message_row db)
      (reverse db.wallet_transactions))

pub record ListOpenLookupJobHoldsRow : Type 0 where
  pub lookup_job_id : Uuid
  pub job_status : LookupJobStatus

hold_job_row : Db → WalletTransaction → Option ListOpenLookupJobHoldsRow
hold_job_row db h = Option.bind h.lookup_job_id λ job.
    Option.map (λ (j : LookupJob). record { lookup_job_id = job; job_status = j.status })
      (find_first (λ (j : LookupJob). j.id == job) db.lookup_jobs)

unfoldable pub list_open_lookup_job_holds : ℕ → Db → List ListOpenLookupJobHoldsRow
unfolding hold_job_row sum_settled_against_hold ◌-ℤ◌
list_open_lookup_job_holds limit db = take limit (
    select
      (λ (h : WalletTransaction).
        is_hold h.type
        && ltb_ℤ (pos 0) (h.amount -ℤ sum_settled_against_hold h.id db.wallet_transactions))
      (hold_job_row db) (reverse db.wallet_transactions))
