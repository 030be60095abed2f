-- ===== src/Billing/Ledger/Posting.antt =====
-- One posting, a wallet update with its ledger row, keeps the invariant.
use sms.Prelude.{
  ℕ, suc, ◌≤◌, ◌<◌, ◌≡◌, refl, sym, ap, ◌∙◌, ◌≢◌, ◌⊎◌, inl, inr, Bool, ◌||◌, true, false, some,
  List, [], ◌∷◌, All, arith, any, Bool-cases,
}
use native.Mathlib.Nat.{le_of_eq}
use sms.Prelude.Int.{ℤ, pos, ◌+ℤ◌, ◌≤ℤ◌, +ℤ_parts, zero-+ℤ, int_laws}
use sms.Store.Types.{Uuid, Wallet, WalletTransaction, Db, is_hold}
use sms.Store.Wallets.{
  Fresh, Keyed, get_wallet_by_client_id, lock_wallet_by_client_id, put_balances,
}
use sms.Store.Ledger.{has_key, settles, sum_settled_against_hold}
use sms.Billing.Ledger.Sums.{available_delta, held_delta, sum-own, sum-other}
use sms.Billing.Ledger.Invariant.{In, Below, LinkedBack, Balanced, Covered, ValidIf}

-- The posting `t` on the wallet `w` leads from one database to the next.
pub record Posted (w : Wallet) (t : WalletTransaction) (db db' : Db) : Type 0 where
  pub locked : lock_wallet_by_client_id t.client_id db.wallets ≡ some w
  pub wallets_after :
      db'.wallets
      ≡ put_balances t.client_id t.balance_after_available t.balance_after_held db.wallets
  pub rows_after : db'.wallet_transactions ≡ t ∷ db.wallet_transactions
  pub next_after : db'.next_id ≡ suc db.next_id
  pub new_id : t.id ≡ db.next_id
  pub new_key : any (has_key t.client_id t.idempotency_key) db.wallet_transactions ≡ false
  pub amount_positive : pos 1 ≤ℤ t.amount
  pub available_moves :
      t.balance_after_available ≡ w.available_balance +ℤ available_delta t.type t.direction t.amount
  pub held_moves : t.balance_after_held ≡ w.held_balance +ℤ held_delta t.type t.amount
  pub held_stays : pos 0 ≤ℤ w.held_balance → pos 0 ≤ℤ t.balance_after_held
  pub linked_back : (k : Uuid) → t.related_hold_id ≡ some k → k < t.id
  pub covers :
      (h : WalletTransaction)
      → In h db.wallet_transactions
      → is_hold h.type ≡ true
      → settles h.id t ≡ true
      → sum_settled_against_hold h.id db.wallet_transactions +ℤ t.amount ≤ℤ h.amount

-- The same where amounts may have been rounded: then the row's amount need not be what the available
-- balance has moved by.
pub record PostedIf (exact : Bool) (w : Wallet) (t : WalletTransaction) (db db' : Db) : Type 0 where
  pub locked : lock_wallet_by_client_id t.client_id db.wallets ≡ some w
  pub wallets_after :
      db'.wallets
      ≡ put_balances t.client_id t.balance_after_available t.balance_after_held db.wallets
  pub rows_after : db'.wallet_transactions ≡ t ∷ db.wallet_transactions
  pub next_after : db'.next_id ≡ suc db.next_id
  pub new_id : t.id ≡ db.next_id
  pub amount_not_negative : pos 0 ≤ℤ t.amount
  pub amount_positive : (exact || is_hold t.type) ≡ true → pos 1 ≤ℤ t.amount
  pub available_moves :
      exact ≡ true
      → t.balance_after_available
        ≡ w.available_balance +ℤ available_delta t.type t.direction t.amount
  pub held_moves : t.balance_after_held ≡ w.held_balance +ℤ held_delta t.type t.amount
  pub held_stays : pos 0 ≤ℤ w.held_balance → pos 0 ≤ℤ t.balance_after_held
  pub linked_back : (k : Uuid) → t.related_hold_id ≡ some k → k < t.id
  pub covers :
      (h : WalletTransaction)
      → In h db.wallet_transactions
      → is_hold h.type ≡ true
      → settles h.id t ≡ true
      → sum_settled_against_hold h.id db.wallet_transactions +ℤ t.amount ≤ℤ h.amount

pub Posted-if :
    {exact : Bool} {w : Wallet} {t : WalletTransaction} {db db' : Db}
    → Posted w t db db'
    → PostedIf exact w t db db'
Posted-if p = record {
  locked = p.locked;
  wallets_after = p.wallets_after;
  rows_after = p.rows_after;
  next_after = p.next_after;
  new_id = p.new_id;
  amount_not_negative = omega (arith, p.amount_positive);
  amount_positive = λ h. p.amount_positive;
  available_moves = λ h. p.available_moves;
  held_moves = p.held_moves;
  held_stays = p.held_stays;
  linked_back = p.linked_back;
  covers = p.covers;
}

put-Fresh :
    (v : Wallet) (client : Uuid) (a b : ℤ) (ws : List Wallet)
    → Fresh v ws
    → Fresh v (put_balances client a b ws)
unfolding put_balances
put-Fresh v client a b [] h = tt
put-Fresh v client a b (w ∷ ws) h = ground (arith, put-Fresh v client a b ws h.2)

pub put-Keyed :
    (client : Uuid) (a b : ℤ) (ws : List Wallet) → Keyed ws → Keyed (put_balances client a b ws)
unfolding put_balances
put-Keyed client a b [] h = tt
put-Keyed client a b (w ∷ ws) h =
    ground (arith, put-Keyed client a b ws h.1, put-Fresh w client a b ws h.0)

-- After the update the client's wallet has the new balances, and any other is as before.
pub get-put :
    (client c : Uuid) (a b : ℤ) (ws : List Wallet) (w' : Wallet)
    → get_wallet_by_client_id c (put_balances client a b ws) ≡ some w'
    → ((c ≡ client) × (w'.available_balance ≡ a) × (w'.held_balance ≡ b))
      ⊎ ((c ≢ client) × (get_wallet_by_client_id c ws ≡ some w'))
unfolding get_wallet_by_client_id put_balances
get-put client c a b [] w' e = cc
get-put client c a b (w ∷ ws) w' e = ground (arith, get-put client c a b ws w')

pub In-Below :
    (n : ℕ) (h : WalletTransaction) (ts : List WalletTransaction) → Below n ts → In h ts → h.id < n
In-Below n h [] b m = absurd m
In-Below n h (t ∷ ts) b (inl e) = ground arith
In-Below n h (t ∷ ts) b (inr m) = omega (arith, In-Below t.id h ts b.1 m)

pub sum_settled-settles :
    (k : Uuid) (t : WalletTransaction) (ts : List WalletTransaction)
    → settles k t ≡ true
    → sum_settled_against_hold k (t ∷ ts) ≡ t.amount +ℤ sum_settled_against_hold k ts
unfolding sum_settled_against_hold
sum_settled-settles k t ts s = rw s

pub sum_settled-skips :
    (k : Uuid) (t : WalletTransaction) (ts : List WalletTransaction)
    → settles k t ≡ false
    → sum_settled_against_hold k (t ∷ ts) ≡ sum_settled_against_hold k ts
unfolding sum_settled_against_hold
sum_settled-skips k t ts s = rw s (zero-+ℤ _)

-- Nothing settles a row that is not there yet.
unsettled_new :
    (n k : ℕ) (ts : List WalletTransaction)
    → Below n ts
    → All LinkedBack ts
    → n ≤ k
    → sum_settled_against_hold k ts ≡ pos 0
unfolding sum_settled_against_hold
unsettled_new n k [] b l h = refl
unsettled_new n k (t ∷ ts) b l h = elim (Bool-cases (settles k t)) [
  | inl s ↦ absurd (ground (arith, l.0 k))
  | inr s ↦ rw (s, unsettled_new t.id k ts b.1 l.1 (omega arith)) (omega int_laws)
]

module _ {exact : Bool} {w : Wallet} {t : WalletTransaction} {db db' : Db} (v : ValidIf exact db)
    (p : PostedIf exact w t db db') where
  own_wallet :
      (c : Uuid) (w' : Wallet)
      → (c ≡ t.client_id)
        × (w'.available_balance ≡ t.balance_after_available)
        × (w'.held_balance ≡ t.balance_after_held)
      → Balanced exact t.client_id w db.wallet_transactions
      → Balanced exact c w' (t ∷ db.wallet_transactions)
  own_wallet c w' own b = rw own.0 (
    (λ h.
        own.1
        ∙ p.available_moves h
        ∙ ap (λ x. x +ℤ available_delta t.type t.direction t.amount) (b.0 h)
        ∙ sym (sum-own t db.wallet_transactions).0),
    own.2
        ∙ p.held_moves
        ∙ ap (λ x. x +ℤ held_delta t.type t.amount) b.1
        ∙ sym (sum-own t db.wallet_transactions).1,
    rw own.2 (p.held_stays b.2),
  )

  other_wallet :
      (c : Uuid) (w' : Wallet)
      → c ≢ t.client_id
      → Balanced exact c w' db.wallet_transactions
      → Balanced exact c w' (t ∷ db.wallet_transactions)
  other_wallet c w' ne b =
      let same = sum-other t db.wallet_transactions c (ground arith) in
      ((λ h. b.0 h ∙ sym same.0), b.1 ∙ sym same.1, b.2)

  posted-Balanced :
      (c : Uuid) (w' : Wallet)
      → get_wallet_by_client_id c
          (put_balances t.client_id t.balance_after_available t.balance_after_held db.wallets)
        ≡ some w'
      → Balanced exact c w' (t ∷ db.wallet_transactions)
  unfolding get_wallet_by_client_id lock_wallet_by_client_id
  posted-Balanced c w' e =
      elim (get-put t.client_id c t.balance_after_available t.balance_after_held db.wallets w' e) [
        | inl own ↦ own_wallet c w' own (v.balanced t.client_id w p.locked)
        | inr other ↦ other_wallet c w' other.0 (v.balanced c w' other.1)
      ]

  new_unsettled : sum_settled_against_hold t.id (t ∷ db.wallet_transactions) ≡ pos 0
  new_unsettled = elim (Bool-cases (settles t.id t)) [
    | inl s ↦ absurd (ground (arith, p.linked_back t.id))
    | inr s ↦
        sum_settled-skips t.id t db.wallet_transactions s
        ∙ unsettled_new db.next_id t.id db.wallet_transactions v.ids v.linked
            (le_of_eq (sym p.new_id))
  ]

  posted-Covered : Covered (t ∷ db.wallet_transactions)
  posted-Covered h (inl e) is = rw (e, new_unsettled) (omega (arith, p.amount_not_negative))
  posted-Covered h (inr m) is = elim (Bool-cases (settles h.id t)) [
    | inl s ↦
        rw (sum_settled-settles h.id t db.wallet_transactions s)
          (omega (arith, +ℤ_parts, p.covers h m is s))
    | inr s ↦ rw (sum_settled-skips h.id t db.wallet_transactions s) (v.covered h m is)
  ]

  -- A posting keeps the invariant.
  pub Posted-Valid : ValidIf exact db'
  Posted-Valid = record {
    keyed =
        rw p.wallets_after
          (put-Keyed t.client_id t.balance_after_available t.balance_after_held db.wallets v.keyed);
    first = omega (arith, p.next_after);
    ids = rw (p.rows_after, p.next_after) (omega (arith, p.new_id), rw p.new_id v.ids);
    proper =
        rw p.rows_after
          ((omega (arith, p.new_id, v.first), p.amount_not_negative, p.amount_positive), v.proper);
    linked = rw p.rows_after (p.linked_back, v.linked);
    balanced = rw (p.wallets_after, p.rows_after) posted-Balanced;
    covered = rw p.rows_after posted-Covered;
  }
