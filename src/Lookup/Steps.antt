-- ===== src/Lookup/Steps.antt =====
-- How an item changes: its life goes forward, and its owner and its price stay.
use sms.Prelude.{◌≤◌, ◌≡◌, refl, sym, ◌∙◌, true, List, [], ◌∷◌, In, at_head, in_tail, map}
use sms.Store.Types.{LookupItem, LookupItemStatus}
use sms.Lookup.State.{is_terminal_item, can_transition-terminal}
use sms.Lookup.Closed.{Reaches, stays, goes}

-- From an item's row to a later row of it: its status is reached by steps of the table, its number of
-- polls stays within the limit, and its id, job, client and price are the same.
pub record Step (i j : LookupItem) : Type 0 where
  pub forward : Reaches i.status j.status
  pub polls : i.poll_attempts ≤ 120 → j.poll_attempts ≤ 120
  pub same_id : j.id ≡ i.id
  pub same_job : j.job_id ≡ i.job_id
  pub same_client : j.client_id ≡ i.client_id
  pub same_price : j.unit_sell_price ≡ i.unit_sell_price

pub Reaches-trans : {a b c : LookupItemStatus} → Reaches a b → Reaches b c → Reaches a c
Reaches-trans stays q = q
Reaches-trans (goes e p) q = goes e (Reaches-trans p q)

-- What has ended stays as it ended.
pub Reaches-ended : {a b : LookupItemStatus} → Reaches a b → is_terminal_item a ≡ true → b ≡ a
Reaches-ended stays e = refl
Reaches-ended (goes {a} {b} t p) e =
    let s = (can_transition-terminal a b t).0 e in Reaches-ended p (rw (sym s) e) ∙ sym s

pub Step-refl : (i : LookupItem) → Step i i
Step-refl i = record {
  forward = stays;
  polls = λ h. h;
  same_id = refl;
  same_job = refl;
  same_client = refl;
  same_price = refl;
}

pub Step-trans : {i j k : LookupItem} → Step i j → Step j k → Step i k
Step-trans s t = record {
  forward = Reaches-trans s.forward t.forward;
  polls = λ h. t.polls (s.polls h);
  same_id = t.same_id ∙ s.same_id;
  same_job = t.same_job ∙ s.same_job;
  same_client = t.same_client ∙ s.same_client;
  same_price = t.same_price ∙ s.same_price;
}

-- Row by row, in the same places: no row is lost, and none is added.
abbrev pub Rows : (LookupItem → LookupItem → Type 0) → List LookupItem → List LookupItem → Type 0
Rows R [] [] = Unit
Rows R [] (j ∷ js) = ⊥
Rows R (i ∷ is) [] = ⊥
Rows R (i ∷ is) (j ∷ js) = R i j × Rows R is js

module _ (R : LookupItem → LookupItem → Type 0) where
  pub Rows-refl : ((i : LookupItem) → R i i) → (is : List LookupItem) → Rows R is is
  Rows-refl r [] = tt
  Rows-refl r (i ∷ is) = (r i, Rows-refl r is)

  pub Rows-trans :
      ((i j k : LookupItem) → R i j → R j k → R i k)
      → (is js ks : List LookupItem) → Rows R is js
      → Rows R js ks
      → Rows R is ks
  Rows-trans t [] [] ks p q = q
  Rows-trans t [] (j ∷ js) ks p q = absurd p
  Rows-trans t (i ∷ is) [] ks p q = absurd p
  Rows-trans t (i ∷ is) (j ∷ js) [] p q = absurd q
  Rows-trans t (i ∷ is) (j ∷ js) (k ∷ ks) p q = (t i j k p.0 q.0, Rows-trans t is js ks p.1 q.1)

abbrev pub Steps : List LookupItem → List LookupItem → Type 0
Steps = Rows Step

pub Steps-refl : (is : List LookupItem) → Steps is is
Steps-refl = Rows-refl Step Step-refl

pub Steps-trans : (is js ks : List LookupItem) → Steps is js → Steps js ks → Steps is ks
Steps-trans = Rows-trans Step λ i j k. Step-trans

pub map-Steps :
    (f : LookupItem → LookupItem) (is : List LookupItem)
    → ((i : LookupItem) → In i is → Step i (f i))
    → Steps is (map f is)
map-Steps f [] k = tt
map-Steps f (i ∷ is) k = (k i at_head, map-Steps f is (λ j h. k j (in_tail h)))
