-- ===== src/Lookup/Unique.antt =====
-- Claims of items in a table where no id repeats: what is claimed is ready.
use sms.Prelude.{
  ℕ, zero, suc, ◌≡◌, refl, sym, ◌⊎◌, Bool, true, false, ◌&&◌, ◌||◌, List, [], ◌∷◌, ◌++◌, In,
  at_head, in_tail, in_cons, In-filter_by, any, take, arith, inl, inr, Bool-cases, ◌==◌, ==_iff,
  if◌then◌else◌,
}
use sms.Store.Types.{Uuid, LookupItem, Db}
use sms.Store.Rows.{get_client_by_id}
use sms.Lookup.Items.{insert_item, sort_items, item_before}
use sms.Lookup.Claims.{is_active_client, candidates, clients_of, share_of, is_claimed, claim_fair}
use sms.Lookup.Steps.{Step, Step-refl, Steps, map-Steps}

-- The primary key of lookup_items.
abbrev pub UniqueIds : List LookupItem → Type 0
UniqueIds [] = Unit
UniqueIds (i ∷ is) = (any (λ j. j.id == i.id) is ≡ false) × UniqueIds is

any-In :
    (f : LookupItem → Bool) {i : LookupItem} {is : List LookupItem}
    → In i is
    → f i ≡ true
    → any f is ≡ true
any-In f at_head t = rw t refl
any-In f (in_tail {x = j} h) t = or_true (f j) (any-In f h t)
  where
    or_true : (b : Bool) {c : Bool} → c ≡ true → (b || c) ≡ true
    or_true true e = refl
    or_true false e = e

any-some :
    (f : LookupItem → Bool) (is : List LookupItem)
    → any f is ≡ true
    → (i : LookupItem) × In i is × (f i ≡ true)
any-some f [] e = absurd (false-true e)
  where
    false-true : false ≡ true → ⊥
    false-true x = cc
any-some f (i ∷ is) e = elim (Bool-cases (f i)) [
  | inl here ↦ (i, at_head, here)
  | inr there ↦ (let r = any-some f is (rw there at e) in (r.0, in_tail r.1, r.2))
]

both : {b : Bool} → b ≡ true → b ≡ false → ⊥
both x y = cc

==_sym : (x y : ℕ) → (x == y) ≡ true → (y == x) ≡ true
==_sym x y e = (==_iff y x).1 (sym ((==_iff x y).0 e))

-- Two rows with the same id are one.
pub same_row :
    (a b : LookupItem) (is : List LookupItem)
    → UniqueIds is
    → In a is
    → In b is
    → (a.id == b.id) ≡ true
    → a ≡ b
same_row a b is u at_head at_head e = refl
same_row a b is u at_head (in_tail h) e =
    absurd (both (any-In (λ k. k.id == a.id) h (==_sym a.id b.id e)) u.0)
same_row a b is u (in_tail h) at_head e = absurd (both (any-In (λ k. k.id == b.id) h e) u.0)
same_row a b is u (in_tail {xs = rest} h) (in_tail k) e = same_row a b rest u.1 h k e

skip :
    (i k : LookupItem) (ks : List LookupItem) {j : LookupItem} → In j (i ∷ ks) → In j (i ∷ k ∷ ks)
skip i k ks h = in_cons (λ x. In x (i ∷ k ∷ ks)) at_head (λ y. in_tail (in_tail y)) h

insert_item-In :
    (at : LookupItem → ℕ) (i : LookupItem) (is : List LookupItem) {j : LookupItem}
    → In j (insert_item at i is)
    → In j (i ∷ is)
unfolding insert_item
insert_item-In at i [] h = h
insert_item-In at i (k ∷ ks) {j} h = elim (Bool-cases (item_before at i k)) [
  | inl before ↦ rw (insert_item, before) at h
  | inr after ↦
      in_cons (λ x. In x (i ∷ k ∷ ks)) (in_tail at_head)
        (λ y. skip i k ks (insert_item-In at i ks y)) (rw (insert_item, after) at h)
]

pub sort_items-In :
    (at : LookupItem → ℕ) (is : List LookupItem) {j : LookupItem}
    → In j (sort_items at is)
    → In j is
unfolding sort_items
sort_items-In at [] h = h
sort_items-In at (i ∷ is) {j} h =
    in_cons (λ x. In x (i ∷ is)) at_head (λ y. in_tail (sort_items-In at is y))
      (insert_item-In at i (sort_items at is) h)

take-In : (n : ℕ) (is : List LookupItem) {j : LookupItem} → In j (take n is) → In j is
take-In zero is h = elim h [ ]
take-In (suc n) [] h = elim h [ ]
take-In (suc n) (i ∷ is) h = in_cons (λ x. In x (i ∷ is)) at_head (λ y. in_tail (take-In n is y)) h

pub append-In : (is js : List LookupItem) {j : LookupItem} → In j (is ++ js) → In j is ⊎ In j js
append-In [] js h = inr h
append-In (i ∷ is) js h =
    in_cons (λ x. In x (i ∷ is) ⊎ In x js) (inl at_head)
      (λ y. elim (append-In is js y) [ inl a ↦ inl (in_tail a) | inr b ↦ inr b ]) h

share_of-In :
    (per : ℕ) (items : List LookupItem) (cs : List Uuid) {j : LookupItem}
    → In j (share_of per items cs)
    → In j items
unfolding share_of
share_of-In per items [] h = elim h [ ]
share_of-In per items (c ∷ cs) h = elim (append-In _ (share_of per items cs) h) [
  | inl x ↦ (In-filter_by (λ (i : LookupItem). i.client_id == c) items (take-In per _ x)).0
  | inr y ↦ share_of-In per items cs y
]

candidates-ready :
    (ready : LookupItem → Bool) (at : LookupItem → ℕ) (db : Db) {j : LookupItem}
    → In j (candidates ready at db)
    → In j db.lookup_items × (ready j ≡ true)
unfolding candidates
candidates-ready ready at db {j} h =
    let (there, passes) = In-filter_by _ db.lookup_items (sort_items-In at _ h) in
    (there, second (is_active_client (get_client_by_id j.client_id db.clients)) (ready j) passes)
  where
    second : (b c : Bool) → (b && c) ≡ true → c ≡ true
    second b c x = ground arith

-- A claim changes only items that are ready, where no id repeats.
pub claim_fair-Steps :
    (ready : LookupItem → Bool) (at : LookupItem → ℕ) (set : LookupItem → LookupItem)
    (clients per : ℕ) (db : Db)
    → ((i : LookupItem) → ready i ≡ true → Step i (set i))
    → UniqueIds db.lookup_items
    → Steps db.lookup_items (claim_fair ready at set clients per db).1.lookup_items
unfolding claim_fair
claim_fair-Steps ready at set clients per db k u =
    map-Steps _ db.lookup_items λ i h. step i h _ refl
  where
    claimed : List LookupItem
    claimed =
        share_of per (candidates ready at db) (take clients (clients_of (candidates ready at db)))

    step :
        (i : LookupItem)
        → In i db.lookup_items
        → (b : Bool) → is_claimed claimed i ≡ b
        → Step i (if b then set i else i)
    step i h true e =
        let (j, there, same) = any-some (λ (j : LookupItem). j.id == i.id) claimed e in
        let (row, passes) = candidates-ready ready at db (share_of-In per _ _ there) in
        k i (rw (same_row j i db.lookup_items u row h same) at passes)
    step i h false e = Step-refl i

pub Steps-UniqueIds : (is js : List LookupItem) → Steps is js → UniqueIds is → UniqueIds js
Steps-UniqueIds [] [] s u = tt
Steps-UniqueIds [] (j ∷ js) s u = absurd s
Steps-UniqueIds (i ∷ is) [] s u = absurd s
Steps-UniqueIds (i ∷ is) (j ∷ js) s u =
    (rw s.0.same_id (same_any i.id is js s.1 u.0), Steps-UniqueIds is js s.1 u.1)
  where
    same_any :
        (id : Uuid) (xs ys : List LookupItem)
        → Steps xs ys
        → any (λ k. k.id == id) xs ≡ false
        → any (λ k. k.id == id) ys ≡ false
    same_any id [] [] t e = e
    same_any id [] (y ∷ ys) t e = absurd t
    same_any id (x ∷ xs) [] t e = absurd t
    same_any id (x ∷ xs) (y ∷ ys) t e =
        let (a, b) = neither (x.id == id) _ e in rw (t.0.same_id, a) (same_any id xs ys t.1 b)
      where
        neither : (a b : Bool) → (a || b) ≡ false → (a ≡ false) × (b ≡ false)
        neither a b x = ground arith
