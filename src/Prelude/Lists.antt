-- ===== src/Prelude/Lists.antt =====
-- Lists measured by native numbers, searches, and predicates on every element.
use Prim.Native.Nat.{ℕ, zero, suc, ◌+◌}
use mathlib.Core.Path.{◌≡◌, refl}
use mathlib.Core.Bool.{Bool, true, false, ◌||◌}
use mathlib.Core.Logic.{inl, inr}
use mathlib.Core.List.{List, [], ◌∷◌, ◌++◌, map}
use mathlib.Core.Option.{Option, none, some}
use native.Mathlib.Omega.{arith}
use sms.Prelude.Tests.{if◌then◌else◌, Bool-cases}

module _ {ℓ} {A : Type ℓ} where
  abbrev pub length : List A → ℕ
  length [] = 0
  length (x ∷ xs) = suc (length xs)

  abbrev pub take : ℕ → List A → List A
  take zero xs = []
  take (suc n) [] = []
  take (suc n) (x ∷ xs) = x ∷ take n xs

  abbrev pub drop : ℕ → List A → List A
  drop zero xs = xs
  drop (suc n) [] = []
  drop (suc n) (x ∷ xs) = drop n xs

  -- The first row that passes, `LIMIT 1` of a query on a unique column.
  abbrev pub find_first : (A → Bool) → List A → Option A
  find_first p [] = none
  find_first p (x ∷ xs) = if p x then some x else find_first p xs

  -- Does any row pass, `EXISTS` of a query.
  abbrev pub any : (A → Bool) → List A → Bool
  any p [] = false
  any p (x ∷ xs) = p x || any p xs

  abbrev pub filter_by : (A → Bool) → List A → List A
  filter_by p [] = []
  filter_by p (x ∷ xs) = if p x then x ∷ filter_by p xs else filter_by p xs

  pub length-append : (xs ys : List A) → length (xs ++ ys) ≡ length xs + length ys
  length-append [] ys = omega arith
  length-append (x ∷ xs) ys = omega (arith, length-append xs ys)

module _ {ℓ κ} {A : Type ℓ} where
  abbrev pub All : (A → Type κ) → List A → Type κ
  All P [] = Unit
  All P (x ∷ xs) = P x × All P xs

  pub All-append : (P : A → Type κ) (xs ys : List A) → All P xs → All P ys → All P (xs ++ ys)
  All-append P [] ys h k = k
  All-append P (x ∷ xs) ys h k = (h.0, All-append P xs ys h.1 k)

-- A place in a list.
pub data In {ℓ} {A : Type ℓ} (a : A) : List A → Type ℓ where
  at_head : {xs : List A} → In a (a ∷ xs)
  in_tail : {x : A} → {xs : List A} → In a xs → In a (x ∷ xs)

-- In a list whose head has a property and whose tail's elements have it.
pub in_cons {ℓ κ} :
    {A : Type ℓ} {a x : A} {xs : List A} (C : A → Type κ)
    → C x
    → (In a xs → C a)
    → In a (x ∷ xs)
    → C a
in_cons C c later at_head = c
in_cons C c later (in_tail i) = later i

pub In-filter_by {ℓ} :
    {A : Type ℓ} (f : A → Bool) (xs : List A) {a : A}
    → In a (filter_by f xs)
    → In a xs × (f a ≡ true)
In-filter_by f [] i = elim i [ ]
In-filter_by f (x ∷ xs) i = elim (Bool-cases (f x)) [
  | inr out ↦ (let r = In-filter_by f xs (rw (out) at i) in (in_tail r.0, r.1))
  | inl kept ↦
      in_cons (λ a. In a (x ∷ xs) × (f a ≡ true)) (at_head, kept)
        (λ y. let r = In-filter_by f xs y in (in_tail r.0, r.1)) (rw (kept) at i)
]

pub In-map {ℓ κ} :
    {A : Type ℓ} {B : Type κ} (f : A → B) (xs : List A) {b : B}
    → In b (map f xs)
    → (a : A) × In a xs × (b ≡ f a)
In-map f [] i = elim i [ ]
In-map {A = A} {B = B} f (x ∷ xs) i = of_cons i (λ j. In-map f xs j)
  where
    of_cons :
        {b : B}
        → In b (f x ∷ map f xs)
        → (In b (map f xs) → (a : A) × In a xs × (b ≡ f a))
        → (a : A) × In a (x ∷ xs) × (b ≡ f a)
    of_cons at_head later = (x, at_head, refl)
    of_cons (in_tail j) later = (let r = later j in (r.0, in_tail r.1, r.2))
