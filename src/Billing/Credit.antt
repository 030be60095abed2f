-- ===== src/Billing/Credit.antt =====
-- internal/billing/service.go: top-ups and adjustments by an administrator.
use sms.Prelude.{Bool, true, false, not, Option, none, some, [], if◌then◌else◌}
use sms.Prelude.Int.{ℤ, ◌+ℤ◌, scale}
use sms.Prelude.Text.{Text, codes, text_eq, trim_space}
use sms.Store.Types.{
  Uuid, Key, topup, adjustment_key, WalletTxType, credit, adjustment, Direction, to_credit,
  to_debit, Db, Wallet, WalletTransaction,
}
use sms.Store.Errors.{Result, ok, ◌>>=◌, ◌>>◌, guard, row_or, wallet_not_found, validation}
use sms.Store.Wallets.{lock_wallet_by_client_id}
use sms.Billing.Rounding.{Decimal, parts, to_numeric}
use sms.Billing.Money.{must_positive, money, apply_adjustment}
use sms.Billing.Post.{key_used, post_balances}

-- `kind` of credit: a CREDIT, or an ADJUSTMENT that may be allowed to go below zero.
pub data Kind : Type 0 where
  kind_credit : Kind
  kind_adjustment : (allow_neg : Bool) → Kind

abbrev pub is_debit : Direction → Bool
is_debit to_credit = false
is_debit to_debit = true

-- Both amounts in the same parts of a millionth.
unfoldable pub credit_available : Kind → ℤ → ℤ → Direction → Result ℤ
credit_available kind_credit avail amt direction = ok (avail +ℤ amt)
credit_available (kind_adjustment allow_neg) avail amt direction =
    apply_adjustment avail amt (is_debit direction) allow_neg

abbrev pub credit_type : Kind → WalletTxType
credit_type kind_credit = credit
credit_type (kind_adjustment allow_neg) = adjustment

-- The new balance `avail` is exact, in parts of a millionth; it and the amount are rounded each for
-- itself when they are stored.
abbrev pub credit_row : Wallet → Uuid → Decimal → Kind → Direction → Key → ℤ → WalletTransaction
credit_row w client amt kind direction key avail = record {
  id = 0;
  wallet_id = w.id;
  client_id = client;
  type = credit_type kind;
  amount = to_numeric (parts amt) amt.numerator;
  currency = trim_space w.currency;
  balance_after_available = to_numeric (parts amt) avail;
  balance_after_held = w.held_balance;
  related_hold_id = none;
  sms_message_id = none;
  lookup_job_id = none;
  lookup_item_id = none;
  idempotency_key = key;
  direction = some direction;
}

-- With the key not used yet.
unfoldable pub post_credit : Uuid → Decimal → Kind → Direction → Key → Db → Result Db
post_credit client amt kind direction key db = do
  w ← row_or wallet_not_found (lock_wallet_by_client_id client db.wallets)
  avail ← credit_available kind (scale w.available_balance (parts amt)) amt.numerator direction
  post_balances w (credit_row w client amt kind direction key avail) db

-- `(*Service).credit`
unfoldable pub credit_wallet : Uuid → Decimal → Kind → Direction → Key → Db → Result Db
credit_wallet client amt kind direction key db =
    if key_used client key db then ok db else post_credit client amt kind direction key db

pub record TopUpInput : Type 0 where
  pub client_id : Uuid
  pub amount : Text
  pub idempotency_key : Text

pub record AdjustInput : Type 0 where
  pub client_id : Uuid
  pub amount : Text
  pub direction : Text
  pub comment : Text
  pub idempotency_key : Text
  pub allow_negative : Bool

-- s != ""
abbrev pub given : Text → Bool
given s = not (text_eq s [])

-- Anything but "debit" is a credit.
unfoldable pub parse_direction : Text → Direction
parse_direction s = if text_eq s (codes "debit") then to_debit else to_credit

-- `new_from_string` is decimal.NewFromString, as in `money`; an amount may be finer than a millionth.
module _ (new_from_string : Text → Option Decimal) where
  unfoldable pub top_up : TopUpInput → Db → Result Db
  top_up inp db = do
    amt ← money new_from_string inp.amount
    must_positive amt.numerator
    guard (given inp.idempotency_key) validation
    credit_wallet inp.client_id amt kind_credit to_credit (topup inp.client_id inp.idempotency_key)
        db

  unfoldable pub adjust : AdjustInput → Db → Result Db
  adjust inp db = do
    amt ← money new_from_string inp.amount
    must_positive amt.numerator
    guard (given inp.comment) validation
    guard (given inp.idempotency_key) validation
    credit_wallet inp.client_id amt (kind_adjustment inp.allow_negative)
        (parse_direction inp.direction) (adjustment_key inp.client_id inp.idempotency_key) db
