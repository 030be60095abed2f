-- ===== src/Store/Errors.antt =====
-- internal/billing/money.go: the sentinel errors, and how a fallible transaction is chained.
use mathlib.Core.Path.{subst}
use sms.Prelude.{◌≡◌, refl, Bool, true, false, Option, none, some, if◌then◌else◌}

-- `no_rows` is pgx.ErrNoRows, `unique_violation` the refusal of a unique index.
pub data Err : Type 0 where
  insufficient_funds tariff_not_configured invalid_tariff price_snapshot_missing : Err
  wallet_not_found hold_not_found invalid_amount negative_balance validation : Err
  no_rows unique_violation : Err

pub data Result {ℓ} (R : Type ℓ) : Type ℓ where
  err : Err → Result R
  ok : R → Result R

-- `if !c { return e }`
abbrev pub guard : (holds : Bool) (refusal : Err) → Result (Unit {0})
guard false refusal = err refusal
guard true refusal = ok tt

-- A row, or the error that its absence is turned into.
abbrev pub row_or {ℓ} : {A : Type ℓ} → Err → Option A → Result A
row_or e none = err e
row_or e (some a) = ok a

abbrev pub is_no_rows : Err → Bool
is_no_rows no_rows = true
is_no_rows _ = false

-- `if err != nil { return err }` after each call.
infixl 5 ◌>>=◌
abbrev pub ◌>>=◌ {ℓ μ} : {R : Type ℓ} {S : Type μ} → Result R → (R → Result S) → Result S
err refusal >>= next = err refusal
ok row >>= next = next row

infixl 5 ◌>>◌
abbrev pub ◌>>◌ {μ} : {S : Type μ} (call : Result (Unit {0})) (next : Result S) → Result S
call >> next = call >>= (λ done. next)

pub row_or-ok {ℓ} : {A : Type ℓ} (e : Err) (o : Option A) {a : A} → row_or e o ≡ ok a → o ≡ some a
row_or-ok e none h = cc
row_or-ok e (some a) h = cc

pub guard-ok : (c : Bool) (e : Err) {u : Unit {0}} → guard c e ≡ ok u → c ≡ true
guard-ok true e h = refl
guard-ok false e h = cc

-- The same, for a proof that goes on with what each link has given.
pub ok->>= {ℓ κ μ} :
    {A : Type ℓ} {B : Type κ} {P : Type μ} (m : Result A) (f : A → Result B) {b : B}
    → (m >>= f) ≡ ok b
    → ((a : A) → m ≡ ok a → f a ≡ ok b → P)
    → P
ok->>= (ok a) f h k = k a refl h
ok->>= {B} (err e) f {b} h k = absurd (err_ok h)
  where
    err_ok : ◌≡◌ {A = Result B} (err e) (ok b) → ⊥
    err_ok x = cc

-- An early return, or what comes after it.
pub if-ok {ℓ κ} :
    {A : Type κ} (c : Bool) (r : Result A) {db db' : A} (P : A → Type ℓ)
    → (if c then ok db else r) ≡ ok db'
    → (c ≡ true → P db)
    → (c ≡ false → r ≡ ok db' → P db')
    → P db'
if-ok {A} true r {db} {db'} P h p q = subst P (same h) (p refl)
  where
    same : ◌≡◌ {A = Result A} (ok db) (ok db') → db ≡ db'
    same x = cc
if-ok false r P h p q = q refl h

pub none-ok {ℓ κ μ} :
    {A : Type κ} {B : Type μ} (o : Option B) (f : B → Result A) {db db' : A} (P : A → Type ℓ)
    → (elim o [ none ↦ ok db | some b ↦ f b ]) ≡ ok db'
    → P db
    → ((b : B) → o ≡ some b → f b ≡ ok db' → P db')
    → P db'
none-ok {A} none f {db} {db'} P h p q = subst P (same h) p
  where
    same : ◌≡◌ {A = Result A} (ok db) (ok db') → db ≡ db'
    same x = cc
none-ok (some b) f P h p q = q b refl h
