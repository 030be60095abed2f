-- ===== src/Lookup/Chunks.antt =====
-- internal/lookup/phone.go: Chunk cuts a list into runs of at most `size`.
use sms.Prelude.{
  ℕ, zero, suc, ◌≤◌, ◌<◌, ◌≡◌, refl, ◌∙◌, ap, List, [], ◌∷◌, ◌++◌, All, arith, length, take, drop,
}
use sms.Lookup.Phone.{chunk_from, chunk}

abbrev pub concat {ℓ} : {A : Type ℓ} → List (List A) → List A
concat [] = []
concat (xs ∷ xss) = xs ++ concat xss

take-drop {ℓ} : {A : Type ℓ} (n : ℕ) (xs : List A) → take n xs ++ drop n xs ≡ xs
take-drop zero xs = refl
take-drop (suc n) [] = refl
take-drop (suc n) (x ∷ xs) = ap (λ t. x ∷ t) (take-drop n xs)

length-drop_le {ℓ} : {A : Type ℓ} (n : ℕ) (xs : List A) → length (drop n xs) ≤ length xs
length-drop_le zero xs = omega arith
length-drop_le (suc n) [] = omega arith
length-drop_le (suc n) (x ∷ xs) = omega (arith, length-drop_le n xs)

length-take_le {ℓ} : {A : Type ℓ} (n : ℕ) (xs : List A) → length (take n xs) ≤ n
length-take_le zero xs = omega arith
length-take_le (suc n) [] = omega arith
length-take_le (suc n) (x ∷ xs) = omega (arith, length-take_le n xs)

abbrev pub IsRun {ℓ} : {A : Type ℓ} → ℕ → List A → Type 0
IsRun size run = (0 < length run) × (length run ≤ size)

chunk_from-lem {ℓ} :
    {A : Type ℓ} (fuel size : ℕ) (items : List A)
    → length items ≤ fuel
    → (concat (chunk_from fuel (suc size) items) ≡ items)
      × All (IsRun (suc size)) (chunk_from fuel (suc size) items)
unfolding chunk_from
chunk_from-lem zero size [] h = (refl, tt)
chunk_from-lem zero size (x ∷ xs) h = absurd (omega (arith, h))
chunk_from-lem (suc fuel) size [] h = (refl, tt)
chunk_from-lem (suc fuel) size (x ∷ xs) h =
    let rest = chunk_from-lem fuel size (drop size xs) (omega (arith, length-drop_le size xs)) in
    (
      ap (λ t. x ∷ take size xs ++ t) rest.0 ∙ ap (λ t. x ∷ t) (take-drop size xs),
      ((omega arith, omega (arith, length-take_le size xs)), rest.1),
    )

chunk_positive {ℓ} :
    {A : Type ℓ} (items : List A) (size : ℕ)
    → 0 < size
    → chunk items size ≡ chunk_from (length items) size items
unfolding chunk
chunk_positive items size positive = ground arith

-- For a positive size the chunks put end to end are the items, and each has at least one item
-- and at most `size`.
pub chunk-lem {ℓ} :
    {A : Type ℓ} (items : List A) (size : ℕ)
    → 0 < size
    → (concat (chunk items size) ≡ items) × All (IsRun size) (chunk items size)
chunk-lem items zero positive = absurd (omega (arith, positive))
chunk-lem items (suc size) positive =
    rw (chunk_positive items (suc size) positive)
      (chunk_from-lem (length items) size items (omega arith))
