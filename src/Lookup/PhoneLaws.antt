-- ===== src/Lookup/PhoneLaws.antt =====
-- What a list of phones looks like after normalization, and what a job may be made of.
use sms.Prelude.{
  ℕ, suc, ◌+◌, ◌≡◌, refl, sym, ◌∙◌, inl, inr, Bool, true, false, ◌||◌, List, [], ◌∷◌, ◌++◌, All,
  All-append, arith, length, length-append, Bool-cases,
}
use sms.Prelude.Text.{Text, text_eq}
use sms.Lookup.Phone.{
  is_ru_mobile_79, valid_e164, contains, Pass, reject_token, mark_non_79, add_phone, start,
}

-- No text stands twice.
abbrev pub Distinct : List Text → Type 0
Distinct [] = Unit
Distinct (x ∷ xs) = (contains xs x ≡ false) × Distinct xs

contains-append :
    (xs : List Text) (x t : Text) → contains (xs ++ x ∷ []) t ≡ (contains xs t || text_eq x t)
unfolding contains
contains-append [] x t = ground arith
contains-append (y ∷ xs) x t = ground (arith, contains-append xs x t)

contains-cons :
    (x : Text) (xs : List Text) (t : Text) → contains (x ∷ xs) t ≡ (text_eq x t || contains xs t)
unfolding contains
contains-cons x xs t = refl

text_eq-sym : (x y : Text) → text_eq x y ≡ text_eq y x
unfolding text_eq
text_eq-sym [] [] = refl
text_eq-sym [] (d ∷ t) = refl
text_eq-sym (c ∷ s) [] = refl
text_eq-sym (c ∷ s) (d ∷ t) = ground (arith, text_eq-sym s t)

Distinct-append :
    (xs : List Text) (x : Text) → Distinct xs → contains xs x ≡ false → Distinct (xs ++ x ∷ [])
Distinct-append [] x d e = (unfold contains in refl, tt)
Distinct-append (y ∷ xs) x d e =
    let parts = cons_parts y xs x e in
    (
      contains-append xs x y
          ∙ both_false (contains xs y) (text_eq x y) d.0 (text_eq-sym x y ∙ parts.0),
      Distinct-append xs x d.1 parts.1,
    )
  where
    cons_parts :
        (a : Text) (rest : List Text) (b : Text)
        → contains (a ∷ rest) b ≡ false
        → (text_eq a b ≡ false) × (contains rest b ≡ false)
    cons_parts a rest b h = unfold contains in ground arith

    both_false : (a b : Bool) → a ≡ false → b ≡ false → (a || b) ≡ false
    both_false a b h k = ground arith

-- What holds after `n` inputs.
pub record PassInv (n : ℕ) (p : Pass) : Type 0 where
  pub seen : (t : Text) → contains p.seen_e164 t ≡ contains p.out.phones t
  pub distinct : Distinct p.out.phones
  pub valid : All (λ t. valid_e164 t ≡ true) p.out.phones
  pub mobile : p.out.has_non_79 ≡ false → All (λ t. is_ru_mobile_79 t ≡ true) p.out.phones
  pub counted : length p.out.phones + p.out.deduplicated_count + length p.out.invalid ≡ n

pub start-PassInv : PassInv 0 start
unfolding start contains
start-PassInv = record {
  seen = λ t. refl;
  distinct = tt;
  valid = tt;
  mobile = λ e. tt;
  counted = omega arith;
}

-- A rejected token changes only the list of rejected tokens.
reject_token-keeps :
    (token : Text) (p : Pass)
    → ((reject_token token p).seen_e164 ≡ p.seen_e164)
      × ((reject_token token p).out.phones ≡ p.out.phones)
      × ((reject_token token p).out.deduplicated_count ≡ p.out.deduplicated_count)
      × ((reject_token token p).out.invalid ≡ p.out.invalid)
      × ((reject_token token p).out.has_non_79 ≡ p.out.has_non_79)
unfolding reject_token
reject_token-keeps token p = ground arith

pub reject_token-PassInv :
    (n : ℕ) (token : Text) (p : Pass) → PassInv n p → PassInv n (reject_token token p)
reject_token-PassInv n token p v =
    let (a, b, c, d, e) = reject_token-keeps token p in
    record {
      seen = rw (a, b) v.seen;
      distinct = rw b v.distinct;
      valid = rw b v.valid;
      mobile = rw (b, e) v.mobile;
      counted = rw (b, c, d) v.counted;
    }

-- After `mark_non_79` the flag is up, or the phone is a Russian mobile.
pub mark_non_79-PassInv :
    (n : ℕ) (e164 trimmed : Text) (p : Pass)
    → PassInv n p
    → PassInv n (mark_non_79 e164 trimmed p)
      × ((mark_non_79 e164 trimmed p).out.has_non_79 ≡ false → is_ru_mobile_79 e164 ≡ true)
unfolding mark_non_79
mark_non_79-PassInv n e164 trimmed p v = elim (Bool-cases (is_ru_mobile_79 e164)) [
  | inl mobile ↦ rw mobile (v, λ e. refl)
  | inr other ↦ rw other (
    reject_token-PassInv n trimmed _ (record {
      seen = v.seen;
      distinct = v.distinct;
      valid = v.valid;
      mobile = λ e. cc;
      counted = v.counted;
    }),
    λ e. raised e,
  )
]
  where
    raised :
        (reject_token trimmed
            (record p { out = record (p.out) { has_non_79 = true } })).out.has_non_79
          ≡ false
        → false ≡ true
    raised e =
        sym e
        ∙ (reject_token-keeps trimmed (record p { out = record (p.out) { has_non_79 = true } })).4

pub add_phone-PassInv :
    (n : ℕ) (e164 : Text) (p : Pass)
    → PassInv n p
    → valid_e164 e164 ≡ true
    → (p.out.has_non_79 ≡ false → is_ru_mobile_79 e164 ≡ true)
    → PassInv (suc n) (add_phone e164 p)
unfolding add_phone
add_phone-PassInv n e164 p v ok mobile = elim (Bool-cases (contains p.seen_e164 e164)) [
  | inl known ↦ rw known (record {
    seen = v.seen;
    distinct = v.distinct;
    valid = v.valid;
    mobile = v.mobile;
    counted = omega (arith, v.counted);
  })
  | inr new ↦ rw new (record {
    seen = λ t. seen_add p.out.phones t (v.seen t);
    distinct = Distinct-append p.out.phones e164 v.distinct (sym (v.seen e164) ∙ new);
    valid = All-append _ p.out.phones (e164 ∷ []) v.valid (ok, tt);
    mobile = λ e. All-append _ p.out.phones (e164 ∷ []) (v.mobile e) (mobile e, tt);
    counted = omega (arith, v.counted, length-append p.out.phones (e164 ∷ []));
  })
]
  where
    seen_add :
        (phones : List Text) (t : Text)
        → contains p.seen_e164 t ≡ contains phones t
        → contains (e164 ∷ p.seen_e164) t ≡ contains (phones ++ e164 ∷ []) t
    seen_add phones t h =
        ground (arith, h, contains-append phones e164 t, contains-cons e164 p.seen_e164 t)
