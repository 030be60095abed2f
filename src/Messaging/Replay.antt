-- ===== src/Messaging/Replay.antt =====
-- What a run with an idempotency key leaves, and what the next run with it finds.
use sms.Prelude.{
  ℕ, ◌≡◌, refl, sym, ap, ◌∙◌, Bool, true, false, ◌&&◌, Option, some, List, [], ◌∷◌, any, inl, inr,
  arith, Bool-cases, Option-cases, if◌then◌else◌, find_first,
}
use sms.Prelude.Text.{Text, text_eq_refl}
use sms.Prelude.Int.{ℤ}
use sms.Store.Types.{Uuid, SmsMessage, Db, is_id}
use sms.Store.Errors.{
  Result, ok, err, ◌>>=◌, ok->>=, row_or, row_or-ok, validation, unique_violation,
  price_snapshot_missing,
}
use sms.Store.Messages.{holds_text}
use sms.Store.Queue.{
  get_sms_message_by_idempotency, insert_sms_message, message_key_taken, has_message_key,
}
use sms.Billing.Sms.{reserve_for_message}
use sms.Billing.Ledger.Invariant.{Valid}
use sms.Billing.Ledger.ReserveOnce.{reserve_for_message_twice}
use sms.Messaging.{store, replay, return_existing}
use sms.Messaging.Reserving.{reserve_for_message-Taken}
use sms.Messaging.Queued.{store-fresh}

find_first-any {ℓ} :
    {A : Type ℓ} (p : A → Bool) (xs : List A) {a : A} → find_first p xs ≡ some a → any p xs ≡ true
find_first-any p [] e = cc
find_first-any p (x ∷ xs) e = elim (Bool-cases (p x)) [
  | inl here ↦ rw here refl
  | inr there ↦ rw there (find_first-any p xs (rw there at e))
]

insert_sms_message-taken :
    (row : SmsMessage) (db : Db)
    → message_key_taken row.client_id row.idempotency_key db.sms_messages ≡ true
    → insert_sms_message row db ≡ err unique_violation
unfolding insert_sms_message
insert_sms_message-taken row db e = rw e refl

taken_by :
    (c : Option Uuid) (k : Option Text) {client : Uuid} {key : Text} {msg : SmsMessage}
    (ms : List SmsMessage)
    → c ≡ some client
    → k ≡ some key
    → get_sms_message_by_idempotency client key ms ≡ some msg
    → message_key_taken c k ms ≡ true
unfolding get_sms_message_by_idempotency
taken_by c k {client} {key} ms e f g =
    rw (e, f) (find_first-any (has_message_key (some client) key) ms g)

return_existing-same :
    (msg : SmsMessage) (price : ℤ) (db : Db)
    → msg.unit_sell_price ≡ some price
    → reserve_for_message msg db ≡ ok db
    → return_existing msg db ≡ ok (msg, db)
unfolding return_existing
return_existing-same msg price db p r =
    chained msg.unit_sell_price (reserve_for_message msg db) (λ reserved. ok (msg, reserved)) p r
  where
    chained :
        (o : Option ℤ) (m : Result Db) (f : Db → Result (SmsMessage × Db))
        → o ≡ some price
        → m ≡ ok db
        → (row_or price_snapshot_missing o >>= (λ x. m >>= f)) ≡ f db
    chained o m f e g = rw (e, g) refl

replay-there :
    (client : Uuid) (key : Text) (msg : SmsMessage) (db : Db)
    → get_sms_message_by_idempotency client key db.sms_messages ≡ some msg
    → replay true client (some key) db ≡ return_existing msg db
unfolding replay
replay-there client key msg db g = rw (replay, g) refl

-- With the key taken, what is stored is what is there.
pub store-taken :
    (survives : Bool) (now : ℕ) (row : SmsMessage) (client : Uuid) (key : Text) (db : Db)
    (msg : SmsMessage) (price : ℤ)
    → row.client_id ≡ some client
    → row.idempotency_key ≡ some key
    → get_sms_message_by_idempotency client key db.sms_messages ≡ some msg
    → msg.unit_sell_price ≡ some price
    → reserve_for_message msg db ≡ ok db
    → store survives now row client (some key) db
      ≡ (if survives then ok (msg, db) else err unique_violation)
unfolding store
store-taken true now row client key db msg price c k g p r =
    rw
      (
        store,
        insert_sms_message-taken row db
            (taken_by row.client_id row.idempotency_key db.sms_messages c k g),
      )
      (replay-there client key msg db g ∙ return_existing-same msg price db p r)
store-taken false now row client key db msg price c k g p r =
    rw
      (
        store,
        insert_sms_message-taken row db
            (taken_by row.client_id row.idempotency_key db.sms_messages c k g),
      )
      (unfold replay in refl)

-- The message that a run with a key has left: it is there under its key, with a price, and its
-- reservation has nothing more to do.
pub record Left (client : Uuid) (key : Text) (msg : SmsMessage) (db db' : Db) : Type 0 where
  pub there : get_sms_message_by_idempotency client key db'.sms_messages ≡ some msg
  pub price : ℤ
  pub priced : msg.unit_sell_price ≡ some price
  pub again : reserve_for_message msg db' ≡ ok db'
  pub numbers : db'.def_numbers ≡ db.def_numbers
  pub assignments : db'.number_assignments ≡ db.number_assignments

return_existing-Left :
    (client : Uuid) (key : Text) (existing : SmsMessage) (db : Db) {msg : SmsMessage} {db' : Db}
    → Valid db
    → get_sms_message_by_idempotency client key db.sms_messages ≡ some existing
    → return_existing existing db ≡ ok (msg, db')
    → Left client key msg db db'
unfolding return_existing reserve_for_message
return_existing-Left client key existing db {msg} {db'} v g h =
    ok->>= (row_or price_snapshot_missing existing.unit_sell_price) _ h λ price e1 h1.
      ok->>= (reserve_for_message existing db) _ h1 λ reserved e2 h2.
        ok->>= (row_or validation existing.client_id) _ e2
          λ owner e3 h3. left reserved price e1 owner e3 e2 (parts h2)
  where
    left :
        (reserved : Db) (price : ℤ)
        → row_or price_snapshot_missing existing.unit_sell_price ≡ ok price
        → (owner : Uuid) → row_or validation existing.client_id ≡ ok owner
        → reserve_for_message existing db ≡ ok reserved
        → (msg ≡ existing) × (db' ≡ reserved)
        → Left client key msg db db'
    left reserved price e1 owner e3 e2 (m, d) =
        let e2' = rw (sym d) at e2 in
        let t = (reserve_for_message-Taken existing owner db v (row_or-ok validation _ e3) e2').0 in
        rw m (record {
          there = rw (ap (λ (x : Db). x.sms_messages) t) g;
          price = price;
          priced = row_or-ok price_snapshot_missing _ e1;
          again = reserve_for_message_twice existing db db' v e2';
          numbers = ap (λ (x : Db). x.def_numbers) t;
          assignments = ap (λ (x : Db). x.number_assignments) t;
        })

    parts :
        {a b : SmsMessage} {c d : Db}
        → ◌≡◌ {A = Result (SmsMessage × Db)} (ok (a, c)) (ok (b, d))
        → (b ≡ a) × (d ≡ c)
    parts x = (cc, cc)

replay-Left :
    (survives : Bool) (client : Uuid) (key : Text) (db : Db) {msg : SmsMessage} {db' : Db}
    → Valid db
    → replay survives client (some key) db ≡ ok (msg, db')
    → Left client key msg db db'
unfolding replay
replay-Left true client key db v h =
    elim (Option-cases (get_sms_message_by_idempotency client key db.sms_messages)) [
      | inl nobody ↦ absurd (refused (rw (replay, nobody) at h))
      | inr (existing, g) ↦ return_existing-Left client key existing db v g (rw (replay, g) at h)
    ]
  where
    refused :
        {r : SmsMessage × Db} → ◌≡◌ {A = Result (SmsMessage × Db)} (err unique_violation) (ok r) → ⊥
    refused x = cc
replay-Left false client key db v h = absurd (refused h)
  where
    refused :
        {r : SmsMessage × Db} → ◌≡◌ {A = Result (SmsMessage × Db)} (err unique_violation) (ok r) → ⊥
    refused x = cc

head_has :
    (row : SmsMessage) (client : Uuid) (key : Text) (id : Uuid) (ms : List SmsMessage)
    → row.client_id ≡ some client
    → row.idempotency_key ≡ some key
    → get_sms_message_by_idempotency client key (record row { id = id } ∷ ms)
      ≡ some (record row { id = id })
unfolding get_sms_message_by_idempotency
head_has row client key id ms c k =
    first (record row { id = id }) (has row.client_id row.idempotency_key c k)
  where
    has :
        (a : Option Uuid) (b : Option Text)
        → a ≡ some client
        → b ≡ some key
        → (is_id a client && holds_text b key) ≡ true
    has a b x y = rw (x, y) (ground (arith, text_eq_refl key))

    first :
        (m : SmsMessage)
        → has_message_key (some client) key m ≡ true
        → find_first (has_message_key (some client) key) (m ∷ ms) ≡ some m
    first m e = rw e refl

pub store-Left :
    (survives : Bool) (now : ℕ) (row : SmsMessage) (client : Uuid) (key : Text) (price : ℤ)
    (db : Db) {msg : SmsMessage} {db' : Db} (o : Option Text)
    → Valid db
    → row.idempotency_key ≡ o
    → row.client_id ≡ some client
    → row.idempotency_key ≡ some key
    → row.unit_sell_price ≡ some price
    → store survives now row client o db ≡ ok (msg, db')
    → Left client key msg db db'
unfolding store
store-Left survives now row client key price db {msg} {db'} o v own c k p h =
    elim (Bool-cases (message_key_taken row.client_id row.idempotency_key db.sms_messages)) [
      | inl taken ↦
          replay-Left survives client key db v
            (rw (store, insert_sms_message-taken row db taken, sym own, k) at h)
      | inr free ↦
          let (m, done) = store-fresh survives now row client db v c free (rw (sym own) at h) in
          rw m (record {
            there = rw done.messages (head_has row client key db.next_id db.sms_messages c k);
            price = price;
            priced = p;
            again = reserve_for_message_twice _ _ db' done.before done.reserved;
            numbers = done.numbers;
            assignments = done.assignments;
          })
    ]
