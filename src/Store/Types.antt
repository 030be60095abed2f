-- ===== src/Store/Types.antt =====
-- internal/db/sqlc/models.go: enumerations and rows. A uuid is a number (its 128 bits; 0 is
-- uuid.Nil), a nullable column an Option, money a whole number of millionths. The columns that only
-- the audit trail shows are left out; the order of creation is the order of the list.
use sms.Prelude.{ℕ, Bool, Option, List, ◌==◌}
use sms.Prelude.Int.{ℤ}
use sms.Prelude.Text.{Text}

abbrev pub Uuid : Type 0
Uuid = ℕ

pub data ClientStatus : Type 0 where
  active suspended deleted : ClientStatus

pub data BillingAction : Type 0 where
  capture release : BillingAction

pub data BillingProduct : Type 0 where
  sms_domestic sms_international product_hlr silent_sms : BillingProduct

pub data LookupCheckType : Type 0 where
  hlr ping : LookupCheckType

pub data LookupItemStatus : Type 0 where
  item_queued item_reserved item_pending item_completed item_failed : LookupItemStatus

pub data LookupJobStatus : Type 0 where
  job_queued job_processing job_completed job_completed_with_errors job_failed : LookupJobStatus

pub data SendAttemptKind : Type 0 where
  kind_accepted rejected_4xx rate_limited kind_timeout kind_5xx : SendAttemptKind

pub data SmsDirection : Type 0 where
  outbound inbound : SmsDirection

pub data SendJobStatus : Type 0 where
  send_pending send_processing send_done send_retry send_uncertain send_dead : SendJobStatus

pub data SmsStatus : Type 0 where
  sms_queued sms_accepted sms_sent sms_delivered sms_failed : SmsStatus

pub data WalletTxType : Type 0 where
  credit hold debit release_tx adjustment : WalletTxType

pub record Client : Type 0 where
  pub id : Uuid
  pub status : ClientStatus

pub record Wallet : Type 0 where
  pub id : Uuid
  pub client_id : Uuid
  pub currency : Text
  pub available_balance : ℤ
  pub held_balance : ℤ
  pub version : ℕ

-- An idempotency key is a prefix, the constructor, and what the code puts behind it.
pub data Key : Type 0 where
  hold_sms debit_sms release_sms : Uuid → Key
  hold_lookup_job debit_lookup_item release_lookup_item release_remainder : Uuid → Key
  topup adjustment_key : Uuid → Text → Key

-- The part of the jsonb column `metadata` that says which way an adjustment goes.
pub data Direction : Type 0 where
  to_credit to_debit : Direction

pub record WalletTransaction : Type 0 where
  pub id : Uuid
  pub wallet_id : Uuid
  pub client_id : Uuid
  pub type : WalletTxType
  pub amount : ℤ
  pub currency : Text
  pub balance_after_available : ℤ
  pub balance_after_held : ℤ
  pub related_hold_id : Option Uuid
  pub sms_message_id : Option Uuid
  pub lookup_job_id : Option Uuid
  pub lookup_item_id : Option Uuid
  pub idempotency_key : Key
  pub direction : Option Direction

-- Of the timestamps, whether they are set.
pub record SmsMessage : Type 0 where
  pub id : Uuid
  pub client_id : Option Uuid
  pub direction : SmsDirection
  pub from_msisdn : Text
  pub to_msisdn : Text
  pub text : Text
  pub provider_sms_id : Option Text
  pub provider_status : Option Text
  pub pdu_count : Option ℕ
  pub campaign_id : Option Uuid
  pub status : SmsStatus
  pub idempotency_key : Option Text
  pub created_at : ℕ
  pub accepted : Bool
  pub sent : Bool
  pub delivered : Bool
  pub has_failed : Bool
  pub unit_sell_price : Option ℤ
  pub billed_segments : Option ℕ
  pub tariff_plan_id : Option Uuid
  pub tariff_plan_code : Option Text
  pub currency : Option Text
  pub billing_action : Option BillingAction

-- A value of the extras of a result; `other_value` is neither nil nor a string.
pub data Value : Type 0 where
  nil : Value
  str : Text → Value
  other_value : Text → Value

abbrev pub Extras : Type 0
Extras = Text → Option Value

-- `extras` is what extrasFromItem reads from the jsonb column normalized_result.
pub record LookupItem : Type 0 where
  pub id : Uuid
  pub job_id : Uuid
  pub client_id : Uuid
  pub check_type : LookupCheckType
  pub status : LookupItemStatus
  pub phone_e164 : Text
  pub phone_digits : Text
  pub provider_code : Text
  pub provider_message_id : Option Text
  pub unit_sell_price : Option ℤ
  pub actual_cost : Option ℤ
  pub result_status : Option Text
  pub is_reachable : Option Bool
  pub imsi : Option Text
  pub mcc : Option Text
  pub mnc : Option Text
  pub operator_name : Option Text
  pub country_code : Option Text
  pub ported : Option Bool
  pub roaming : Option Bool
  pub extras : Extras
  pub error_code : Option Text
  pub error_message : Option Text
  pub billing_action : Option BillingAction
  pub next_poll_at : Option ℕ
  pub poll_attempts : ℕ
  pub sent_at : Option ℕ
  pub completed_at : Option ℕ
  pub created_at : ℕ
  pub updated_at : ℕ
  pub enrich_attempts : ℕ

pub record LookupJob : Type 0 where
  pub id : Uuid
  pub client_id : Uuid
  pub check_type : LookupCheckType
  pub status : LookupJobStatus
  pub item_count : ℕ
  pub success_count : ℕ
  pub failure_count : ℕ
  pub reachable_count : ℕ
  pub unreachable_count : ℕ
  pub unit_sell_price : Option ℤ
  pub tariff_plan_id : Option Uuid
  pub tariff_plan_code : Option Text
  pub currency : Text
  pub actual_cost : Option ℤ
  pub started_at : Option ℕ
  pub completed_at : Option ℕ
  pub updated_at : ℕ

-- The id of a worker, which has a random part, is a number.
pub record SendJob : Type 0 where
  pub id : Uuid
  pub sms_message_id : Uuid
  pub client_id : Option Uuid
  pub status : SendJobStatus
  pub attempt : ℕ
  pub available_at : ℕ
  pub locked_at : Option ℕ
  pub locked_by : Option ℕ
  pub last_error : Option Text

pub record ProviderSendAttempt : Type 0 where
  pub send_job_id : Uuid
  pub attempt : ℕ
  pub http_status : Option ℕ
  pub response_body : Option Text
  pub error_kind : SendAttemptKind

-- A number of the inventory, and whose it is until it is unassigned.
pub record DefNumber : Type 0 where
  pub id : Uuid
  pub msisdn : Text
  pub assigned : Bool  -- status = 'assigned'

pub record NumberAssignment : Type 0 where
  pub def_number_id : Uuid
  pub client_id : Uuid
  pub is_open : Bool  -- unassigned_at is null

-- Instants are numbers.
pub record ClientTariff : Type 0 where
  pub id : Uuid
  pub client_id : Uuid
  pub product : BillingProduct
  pub tariff_plan_id : Uuid
  pub price_override : Option ℤ
  pub effective_from : ℕ
  pub effective_to : Option ℕ

pub record TariffPlan : Type 0 where
  pub id : Uuid
  pub code : Text
  pub product : BillingProduct
  pub sell_price : ℤ
  pub currency : Text
  pub is_active : Bool

-- The database. `next_id` is what gen_random_uuid gives next: never used before, never uuid.Nil.
pub record Db : Type 0 where
  pub clients : List Client
  pub wallets : List Wallet
  pub wallet_transactions : List WalletTransaction
  pub sms_messages : List SmsMessage
  pub send_jobs : List SendJob
  pub send_attempts : List ProviderSendAttempt
  pub def_numbers : List DefNumber
  pub number_assignments : List NumberAssignment
  pub lookup_items : List LookupItem
  pub lookup_jobs : List LookupJob
  pub client_tariffs : List ClientTariff
  pub tariff_plans : List TariffPlan
  pub next_id : Uuid

abbrev pub is_deleted : ClientStatus → Bool
is_deleted deleted = Bool.true
is_deleted _ = Bool.false

abbrev pub is_hold : WalletTxType → Bool
is_hold hold = Bool.true
is_hold _ = Bool.false

-- type IN ('DEBIT', 'RELEASE')
abbrev pub is_settlement : WalletTxType → Bool
is_settlement debit = Bool.true
is_settlement release_tx = Bool.true
is_settlement _ = Bool.false

abbrev pub is_id : Option Uuid → Uuid → Bool
is_id Option.none k = Bool.false
is_id (Option.some j) k = j == k
