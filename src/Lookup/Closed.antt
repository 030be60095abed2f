-- ===== src/Lookup/Closed.antt =====
-- internal/lookup/worker.go: a property of the worker's state that each single write keeps is kept by
-- the ends of items and jobs, and by reports on items.
use sms.Prelude.{
  ℕ, ◌≤◌, ◌≡◌, refl, Bool, true, false, Option, none, some, List, All, map, if◌then◌else◌,
}
use sms.Prelude.Text.{Text}
use sms.Store.Types.{Uuid, LookupItem, LookupItemStatus, LookupJob, Db}
use sms.Store.Errors.{Result, ok, err}
use sms.Billing.Sms.{or_same}
use sms.Billing.Lookup.{settle_lookup_item, release_lookup_job_remainder}
use sms.Webhooks.Tables.{Hooks}
use sms.Lookup.State.{can_transition_item}
use sms.Lookup.Items.{Transition, transition_lookup_item}
use sms.Lookup.Callbacks.{ProviderLookupCallback}
use sms.Lookup.World.{LookupWorld}
use sms.Lookup.Claims.{claim_fair}
use sms.Lookup.Ending.{with_db, failing}

-- A status is reached from another by steps of the table.
pub data Reaches : LookupItemStatus → LookupItemStatus → Type 0 where
  stays : {a : LookupItemStatus} → Reaches a a
  goes : {a b c : LookupItemStatus} → can_transition_item a b ≡ true → Reaches b c → Reaches a c

-- A number of polls within the limit, or none given.
abbrev pub WithinPolls : Option ℕ → Type 0
WithinPolls none = Unit
WithinPolls (some n) = n ≤ 120

-- A transition that the worker may ask for.
pub record Allowed (t : Transition) : Type 0 where
  pub forward : All (λ from. Reaches from t.to_status) t.from_statuses
  pub polls : WithinPolls t.poll_attempts

-- A claim that leads to a status that can be reached, and leaves the polls, the id, the
-- job, the client and the price.
pub record Claimable (ready : LookupItem → Bool) (set : LookupItem → LookupItem) : Type 0 where
  pub forward : (i : LookupItem) → ready i ≡ true → Reaches i.status (set i).status
  pub same_id : (i : LookupItem) → (set i).id ≡ i.id
  pub same_polls : (i : LookupItem) → (set i).poll_attempts ≡ i.poll_attempts
  pub same_job : (i : LookupItem) → (set i).job_id ≡ i.job_id
  pub same_client : (i : LookupItem) → (set i).client_id ≡ i.client_id
  pub same_price : (i : LookupItem) → (set i).unit_sell_price ≡ i.unit_sell_price

-- A change of an item that leaves its status and the same columns.
pub record Keeps (set : LookupItem → LookupItem) : Type 0 where
  pub same_status : (i : LookupItem) → (set i).status ≡ i.status
  pub same_id : (i : LookupItem) → (set i).id ≡ i.id
  pub same_polls : (i : LookupItem) → (set i).poll_attempts ≡ i.poll_attempts
  pub same_job : (i : LookupItem) → (set i).job_id ≡ i.job_id
  pub same_client : (i : LookupItem) → (set i).client_id ≡ i.client_id
  pub same_price : (i : LookupItem) → (set i).unit_sell_price ≡ i.unit_sell_price

-- A property that the single writes keep.
pub record Closed (P : LookupWorld → Type 0) : Type 0 where
  pub items :
      (now : ℕ) (t : Transition) (w : LookupWorld) (i : LookupItem) (db : Db)
      → Allowed t
      → transition_lookup_item now t w.db ≡ ok (i, db)
      → P w
      → P (with_db w db)
  pub claimed :
      (ready : LookupItem → Bool) (at : LookupItem → ℕ) (set : LookupItem → LookupItem)
      (clients per : ℕ) (w : LookupWorld)
      → Claimable ready set
      → P w
      → P (with_db w (claim_fair ready at set clients per w.db).1)
  pub touched :
      (set : LookupItem → LookupItem) (w : LookupWorld)
      → Keeps set
      → P w
      → P (with_db w (record (w.db) { lookup_items = map set w.db.lookup_items }))
  pub jobs :
      (w : LookupWorld) (js : List LookupJob)
      → P w
      → P (with_db w (record (w.db) { lookup_jobs = js }))
  pub settled :
      (id : Uuid) (is_capture : Bool) (w : LookupWorld)
      → P w
      → P (with_db w (or_same w.db (settle_lookup_item id is_capture w.db)))
  pub remainder :
      (id : Uuid) (w : LookupWorld)
      → P w
      → P (with_db w (or_same w.db (release_lookup_job_remainder id w.db)))
  pub hooks : (w : LookupWorld) (h : Hooks) → P w → P (record w { hooks = h })
  pub inbox :
      (w : LookupWorld) (cs : List ProviderLookupCallback) → P w → P (record w { callbacks = cs })

pub if_holds :
    (P : LookupWorld → Type 0) (b : Bool) {x y : LookupWorld} → P x → P y → P (if b then x else y)
if_holds P true p q = p
if_holds P false p q = q

-- What goes on with the row of a job that is found.
pub job_holds :
    (P : LookupWorld → Type 0) (o : Option (LookupJob × Db)) (k : LookupJob × Db → LookupWorld)
    {w : LookupWorld}
    → P w
    → ((r : LookupJob × Db) → o ≡ some r → P (k r))
    → P (elim o [ none ↦ w | some r ↦ k r ])
job_holds P none k p q = p
job_holds P (some r) k p q = q r refl

-- What goes on with the row of an item that has changed.
pub item_holds :
    (P : LookupWorld → Type 0) (o : Result (LookupItem × Db)) (k : LookupItem × Db → LookupWorld)
    {w : LookupWorld}
    → P w
    → ((r : LookupItem × Db) → o ≡ ok r → P (k r))
    → P (elim o [ err e ↦ w | ok r ↦ k r ])
item_holds P (err e) k p q = p
item_holds P (ok r) k p q = q r refl

pub failing-Allowed :
    (now : ℕ) (id : Uuid) (code message : Text) → Allowed (failing now id code message)
unfolding can_transition_item
failing-Allowed now id code message = record {
  forward = (goes refl stays, (goes refl stays, (goes refl stays, tt)));
  polls = tt;
}
