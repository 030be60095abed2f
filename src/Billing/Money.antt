-- ===== src/Billing/Money.antt =====
-- internal/billing/ledger.go, money.go, lookup.go: arithmetic on the two balances of a wallet.
-- Decimal arithmetic is exact; the amounts of one sum are whole numbers of the same unit.
use sms.Prelude.{Bool, ◌&&◌, not, if◌then◌else◌, Option}
use sms.Prelude.Int.{ℤ, pos, ◌+ℤ◌, ◌-ℤ◌, ltb_ℤ}
use sms.Prelude.Text.{Text, trim_space}
use sms.Billing.Rounding.{Decimal}
use sms.Store.Errors.{
  Result, ok, err, guard, row_or, insufficient_funds, invalid_amount, negative_balance,
}

abbrev pub is_negative : ℤ → Bool
is_negative a = ltb_ℤ a (pos 0)

-- Of an amount finer than a millionth `d` is the numerator.
unfoldable pub must_positive : ℤ → Result (Unit {0})
must_positive d = guard (ltb_ℤ (pos 0) d) invalid_amount

-- `new_from_string` is decimal.NewFromString.
unfoldable pub money : (Text → Option Decimal) → Text → Result Decimal
money new_from_string s = row_or invalid_amount (new_from_string (trim_space s))

-- The balances available and held after the operation.
unfoldable pub apply_hold : ℤ → ℤ → ℤ → Result (ℤ × ℤ)
apply_hold avail held amt =
    let next_avail = avail -ℤ amt in
    if is_negative next_avail then err insufficient_funds else ok (next_avail, held +ℤ amt)

unfoldable pub apply_release : ℤ → ℤ → ℤ → Result (ℤ × ℤ)
apply_release avail held amt =
    let next_held = held -ℤ amt in
    if is_negative next_held then err invalid_amount else ok (avail +ℤ amt, next_held)

unfoldable pub apply_debit_from_hold : ℤ → ℤ → ℤ → Result (ℤ × ℤ)
apply_debit_from_hold avail held amt =
    let next_held = held -ℤ amt in
    if is_negative next_held then err invalid_amount else ok (avail, next_held)

unfoldable pub apply_adjustment : ℤ → ℤ → Bool → Bool → Result ℤ
apply_adjustment avail amt is_debit allow_neg =
    let next = if is_debit then avail -ℤ amt else avail +ℤ amt in
    if is_negative next && not allow_neg then err negative_balance else ok next

-- What is left on a hold of which a part is settled.
unfoldable pub remaining_on_hold : ℤ → ℤ → Result ℤ
remaining_on_hold hold_amount settled_amount =
    let left = hold_amount -ℤ settled_amount in
    if is_negative left then err invalid_amount else ok left

unfoldable pub hold_is_open : ℤ → Bool
hold_is_open remaining = ltb_ℤ (pos 0) remaining
