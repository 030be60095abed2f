-- ===== src/Webhooks/Events.antt =====
-- internal/webhooks/service.go, normalizeEvents: the events of an endpoint.
use sms.Prelude.{
  ◌≡◌, refl, sym, inl, inr, Bool, true, false, ◌||◌, not, Option, none, some, List, [], ◌∷◌, any,
  All, arith, Bool-cases, Option-cases,
}
use sms.Prelude.Text.{Text, text_eq, trim_space}
use sms.Webhooks.Schedule.{known_event}
use sms.Webhooks.Manage.{normalize_from, normalize_events}

abbrev pub NoTwice : List Text → Type 0
NoTwice [] = Unit
NoTwice (e ∷ es) = All (λ x. text_eq e x ≡ false) es × NoTwice es

none-some : {a : List Text} → ◌≡◌ {A = Option (List Text)} none (some a) → ⊥
none-some x = cc

some_eq : {a b : List Text} → ◌≡◌ {A = Option (List Text)} (some a) (some b) → a ≡ b
some_eq x = cc

-- A known event that was not seen.
abbrev IsNew : List Text → Text → Type 0
IsNew seen x = (known_event x ≡ true) × (any (λ d. text_eq d x) seen ≡ false)

or_false : (b c : Bool) → (b || c) ≡ false → (b ≡ false) × (c ≡ false)
or_false b c e = ground arith

split-IsNew :
    (e : Text) (seen out : List Text)
    → All (IsNew (e ∷ seen)) out
    → All (IsNew seen) out × All (λ x. text_eq e x ≡ false) out
split-IsNew e seen [] h = (tt, tt)
split-IsNew e seen (x ∷ out) h =
    let rest = split-IsNew e seen out h.1 in
    let both = or_false (text_eq e x) _ h.0.1 in (((h.0.0, both.1), rest.0), (both.0, rest.1))

not-false : (b : Bool) → not b ≡ false → b ≡ true
not-false true e = refl
not-false false e = sym e

normalize_from-New :
    (seen events : List Text) {out : List Text}
    → normalize_from seen events ≡ some out
    → All (IsNew seen) out × NoTwice out
unfolding normalize_from
normalize_from-New seen [] e = rw (sym (some_eq e)) (tt, tt)
normalize_from-New seen (raw ∷ events) e = elim (Bool-cases (not (known_event (trim_space raw)))) [
  | inl unknown ↦ absurd (none-some (rw (normalize_from, unknown) at e))
  | inr known ↦ elim (Bool-cases (any (λ d. text_eq d (trim_space raw)) seen)) [
    | inl again ↦ normalize_from-New seen events (rw (normalize_from, known, again) at e)
    | inr new ↦ elim (Option-cases (normalize_from (trim_space raw ∷ seen) events)) [
      | inl failed ↦ absurd (none-some (rw (normalize_from, known, new, failed) at e))
      | inr (rest, found) ↦
          let r = normalize_from-New (trim_space raw ∷ seen) events found in
          let s = split-IsNew (trim_space raw) seen rest r.0 in
          rw (sym (some_eq (rw (normalize_from, known, new, found) at e)))
            (((not-false _ known, new), s.0), (s.1, r.1))
    ]
  ]
]

-- The events that an endpoint is given are known, and none is given twice.
pub normalize_events-lem :
    (events : List Text) {out : List Text}
    → normalize_events events ≡ some out
    → All (λ x. known_event x ≡ true) out × NoTwice out
unfolding normalize_events
normalize_events-lem events {out} e =
    let r = normalize_from-New [] events e in (firsts out r.0, r.1)
  where
    firsts : (xs : List Text) → All (IsNew []) xs → All (λ x. known_event x ≡ true) xs
    firsts [] h = tt
    firsts (x ∷ xs) h = (h.0.0, firsts xs h.1)
