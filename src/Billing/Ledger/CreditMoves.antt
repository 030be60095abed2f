-- ===== src/Billing/Ledger/CreditMoves.antt =====
-- Top-ups and adjustments keep the invariant.
use sms.Prelude.{
  ℕ, zero, suc, ◌≡◌, refl, ◌∙◌, inl, inr, Bool, true, false, ◌||◌, ◌==◌, Option, none, some, arith,
  Bool-cases, Option-cases,
}
use sms.Prelude.Int.{ℤ, pos, ◌+ℤ◌, ◌≤ℤ◌, scale, int_laws}
use sms.Prelude.Text.{Text, trim_space}
use sms.Store.Types.{
  Uuid, Key, Wallet, WalletTxType, Db, Direction, to_credit, to_debit, topup, adjustment_key,
  is_hold,
}
use sms.Store.Errors.{
  Result, ok, row_or, guard, ok->>=, row_or-ok, wallet_not_found, validation, invalid_amount,
}
use sms.Billing.Rounding.{
  Decimal, ten_to, parts, to_numeric, to_numeric_whole, to_numeric_nonneg, scale_one,
}
use sms.Store.Wallets.{lock_wallet_by_client_id}
use sms.Billing.Money.{must_positive, money}
use sms.Billing.Post.{key_used, post_balances}
use sms.Billing.Credit.{
  Kind, kind_credit, kind_adjustment, credit_available, credit_type, credit_row, post_credit,
  credit_wallet, TopUpInput, AdjustInput, top_up, adjust, given, parse_direction,
}
use sms.Billing.Ledger.Sums.{available_delta, held_delta}
use sms.Billing.Ledger.Invariant.{ValidIf}
use sms.Billing.Ledger.Posting.{PostedIf, Posted-Valid}
use sms.Billing.Ledger.Moves.{post_balances-ok}
use sms.Billing.Ledger.Holds.{apply_adjustment-ok, must_positive-ok}

-- The new available balance is the old one and what the row is worth.
credit_available-lem :
    (kind : Kind) (a amt : ℤ) (direction : Direction) {b : ℤ}
    → credit_available kind a amt direction ≡ ok b
    → b ≡ a +ℤ available_delta (credit_type kind) (some direction) amt
unfolding credit_available
credit_available-lem kind_credit a amt direction e = cc
credit_available-lem (kind_adjustment allow_neg) a amt to_credit e =
    (apply_adjustment-ok a amt false allow_neg e).1 refl
credit_available-lem (kind_adjustment allow_neg) a amt to_debit e =
    (apply_adjustment-ok a amt true allow_neg e).0 refl ∙ omega int_laws

credit_held : (kind : Kind) (h amt : ℤ) → h ≡ h +ℤ held_delta (credit_type kind) amt
credit_held kind_credit h amt = omega int_laws
credit_held (kind_adjustment allow_neg) h amt = omega int_laws

-- With no more than six decimals nothing is rounded.
exact_amount :
    (n : ℕ) (type : WalletTxType) (direction : Direction) (a b z : ℤ)
    → n ≡ 0
    → b ≡ scale a (ten_to n) +ℤ available_delta type (some direction) z
    → to_numeric (ten_to n) b ≡ a +ℤ available_delta type (some direction) (to_numeric (ten_to n) z)
exact_amount zero type direction a b z e h =
    rw (to_numeric_whole b, to_numeric_whole z, ← scale_one a) h
exact_amount (suc n) type direction a b z e h = absurd (omega (arith, e))

positive_amount : (n : ℕ) (z : ℤ) → n ≡ 0 → pos 1 ≤ℤ z → pos 1 ≤ℤ to_numeric (ten_to n) z
positive_amount zero z e h = rw (to_numeric_whole z) h
positive_amount (suc n) z e h = absurd (omega (arith, e))

credit_no_hold : (kind : Kind) → is_hold (credit_type kind) ≡ true → ⊥
credit_no_hold kind_credit e = cc
credit_no_hold (kind_adjustment allow_neg) e = cc

exact_of :
    (exact : Bool) (kind : Kind) → (exact || is_hold (credit_type kind)) ≡ true → exact ≡ true
exact_of true kind e = refl
exact_of false kind e = absurd (credit_no_hold kind e)

-- A row of a credit that went through.
post_credit-Posted :
    {exact : Bool} (w : Wallet) (client : Uuid) (amt : Decimal) (kind : Kind)
    (direction : Direction) (key : Key) (a : ℤ) (db : Db) {db' : Db}
    → ValidIf exact db
    → (exact ≡ true → amt.finer ≡ 0)
    → pos 1 ≤ℤ amt.numerator
    → lock_wallet_by_client_id client db.wallets ≡ some w
    → credit_available kind (scale w.available_balance (parts amt)) amt.numerator direction ≡ ok a
    → post_balances w (credit_row w client amt kind direction key a) db ≡ ok db'
    → PostedIf exact w
        (record (credit_row w client amt kind direction key a) { id = db.next_id })
        db
        db'
post_credit-Posted w client amt kind direction key a db v small positive l ha h =
    let (new, e) =
      post_balances-ok w (credit_row w client amt kind direction key a) db v.keyed l h in
    rw e (record {
      locked = l;
      wallets_after = refl;
      rows_after = refl;
      next_after = refl;
      new_id = refl;
      amount_not_negative = to_numeric_nonneg (parts amt) amt.numerator positive;
      amount_positive =
          λ x. positive_amount amt.finer amt.numerator (small (exact_of _ kind x)) positive;
      available_moves = λ x.
          exact_amount amt.finer (credit_type kind) direction w.available_balance a amt.numerator
            (small x)
            (credit_available-lem kind (scale w.available_balance (parts amt)) amt.numerator
              direction ha);
      held_moves = credit_held kind w.held_balance (to_numeric (parts amt) amt.numerator);
      held_stays = λ n. n;
      linked_back = λ k x. cc;
      covers = λ i m is s. cc;
    })

same_result : {db db' : Db} → Result.ok db ≡ ok db' → db' ≡ db
same_result e = cc

credit_wallet-Valid :
    {exact : Bool} (client : Uuid) (amt : Decimal) (kind : Kind) (direction : Direction) (key : Key)
    (db : Db) {db' : Db}
    → ValidIf exact db
    → (exact ≡ true → amt.finer ≡ 0)
    → pos 1 ≤ℤ amt.numerator
    → credit_wallet client amt kind direction key db ≡ ok db'
    → ValidIf exact db'
unfolding credit_wallet post_credit
credit_wallet-Valid client amt kind direction key db v small positive h =
    elim (Bool-cases (key_used client key db)) [
      | inl used ↦ rw (same_result (rw (credit_wallet, used) at h)) v
      | inr unused ↦
          ok->>= (row_or wallet_not_found (lock_wallet_by_client_id client db.wallets)) _
            (rw (credit_wallet, unused) at h)
            λ w lw h1.
              ok->>=
                (credit_available kind (scale w.available_balance (parts amt)) amt.numerator
                  direction)
                _ h1
                λ a ha h2. Posted-Valid v (
                  post_credit-Posted w client amt kind direction key a db v small positive
                    (row_or-ok wallet_not_found _ lw) ha h2)
    ]

module _ (new_from_string : Text → Option Decimal) where
  -- decimal.NewFromString reads no more than six decimals in the amount.
  abbrev pub six_decimals : Text → Bool
  six_decimals amount = elim (new_from_string (trim_space amount)) [
    | none ↦ true
    | some d ↦ d.finer == 0
  ]

  six_decimals-finer :
      (s : Text) (d : Decimal)
      → six_decimals s ≡ true
      → money new_from_string s ≡ ok d
      → d.finer ≡ 0
  unfolding money
  six_decimals-finer s d h e = elim (Option-cases (new_from_string (trim_space s))) [
    | inl bad ↦ absurd (bad_amount (rw bad at e))
    | inr (x, read) ↦ zero_of x d (rw (six_decimals, read) at h) (rw read at e)
  ]
    where
      bad_amount : row_or invalid_amount none ≡ ok d → ⊥
      bad_amount q = cc

      zero_of :
          (x y : Decimal)
          → (x.finer == 0) ≡ true
          → row_or invalid_amount (some x) ≡ ok y
          → y.finer ≡ 0
      zero_of x y p q = ground arith

  pub top_up-Valid :
      {exact : Bool} (inp : TopUpInput) (db : Db) {db' : Db}
      → ValidIf exact db
      → (exact ≡ true → six_decimals inp.amount ≡ true)
      → top_up new_from_string inp db ≡ ok db'
      → ValidIf exact db'
  unfolding top_up
  top_up-Valid inp db v small h = ok->>= (money new_from_string inp.amount) _ h λ amt e h1.
      ok->>= (must_positive amt.numerator) _ h1 λ u e1 h2.
        ok->>= (guard (given inp.idempotency_key) validation) _ h2 λ u' e2 h3.
          credit_wallet-Valid inp.client_id amt kind_credit to_credit
            (topup inp.client_id inp.idempotency_key) db v
            (λ x. six_decimals-finer inp.amount amt (small x) e) (must_positive-ok amt.numerator e1)
            h3

  pub adjust-Valid :
      {exact : Bool} (inp : AdjustInput) (db : Db) {db' : Db}
      → ValidIf exact db
      → (exact ≡ true → six_decimals inp.amount ≡ true)
      → adjust new_from_string inp db ≡ ok db'
      → ValidIf exact db'
  unfolding adjust
  adjust-Valid inp db v small h = ok->>= (money new_from_string inp.amount) _ h λ amt e h1.
      ok->>= (must_positive amt.numerator) _ h1 λ u e1 h2.
        ok->>= (guard (given inp.comment) validation) _ h2 λ u' e2 h3.
          ok->>= (guard (given inp.idempotency_key) validation) _ h3 λ u'' e3 h4.
            credit_wallet-Valid inp.client_id amt (kind_adjustment inp.allow_negative)
              (parse_direction inp.direction) (adjustment_key inp.client_id inp.idempotency_key) db
              v (λ x. six_decimals-finer inp.amount amt (small x) e)
              (must_positive-ok amt.numerator e1) h4
