-- ===== src/Outbox/Matching.antt =====
-- internal/messaging/match.go: what a match is worth.
use sms.Prelude.{
  ◌≡◌, refl, sym, ◌∙◌, ap, ◌⊎◌, inl, inr, Bool, true, false, ◌&&◌, not, Option, none, some, List,
  [], ◌∷◌, In, at_head, in_tail, in_cons, arith, Bool-cases, if◌then◌else◌,
}
use sms.Prelude.Text.{Text, text_eq, trim_space}
use sms.Msisdn.{canonical}
use sms.Outbox.Match.{
  StatisticRow, is_blank, is_candidate, exact_rows, empty_rows, choose_row, match_statistic,
}

-- The row's text is the message's, apart from white space around it.
abbrev pub IsExact : Text → StatisticRow → Type 0
IsExact want_text row =
    (is_blank (trim_space row.message) ≡ false)
    × (text_eq (trim_space row.message) want_text ≡ true)

and_both : (b c : Bool) → (b && c) ≡ true → (b ≡ true) × (c ≡ true)
and_both b c e = ground arith

not-true : (b : Bool) → not b ≡ true → b ≡ false
not-true true e = sym e
not-true false e = refl

-- A filter that is written out as a loop, and its test.
kept_or_passed :
    {row r : StatisticRow} {rest rows : List StatisticRow} (P : StatisticRow → Type 0) (b : Bool)
    → (b ≡ true → P r)
    → (In row rest → In row rows × P row)
    → In row (if b then r ∷ rest else rest)
    → In row (r ∷ rows) × P row
kept_or_passed {r = r} {rows = rows} P true p later i =
    in_cons (λ a. In a (r ∷ rows) × P a) (at_head, p refl)
      (λ j. let x = later j in (in_tail x.0, x.1)) i
kept_or_passed P false p later i = let x = later i in (in_tail x.0, x.1)

some_same : {a b : StatisticRow} → ◌≡◌ {A = Option StatisticRow} (some a) (some b) → a ≡ b
some_same x = cc

none-some : {b : StatisticRow} → ◌≡◌ {A = Option StatisticRow} none (some b) → ⊥
none-some x = cc

module _ (from to want_text : Text) (used : List Text) where
  exact_rows-In :
      (rows : List StatisticRow) {row : StatisticRow}
      → In row (exact_rows from to want_text used rows)
      → In row rows × (is_candidate from to used row ≡ true) × IsExact want_text row
  unfolding exact_rows
  exact_rows-In [] i = elim i [ ]
  exact_rows-In (r ∷ rows) i =
      let kept =
        kept_or_passed (λ a. (is_candidate from to used a ≡ true) × IsExact want_text a) _
          (λ e.
            let x = and_both _ (text_eq (trim_space r.message) want_text) e in
            let y = and_both (is_candidate from to used r) _ x.0 in (y.0, (not-true _ y.1, x.1)))
          (λ j. let x = exact_rows-In rows j in (x.0, (x.1, x.2))) i in
      (kept.0, kept.1.0, kept.1.1)

  empty_rows-In :
      (rows : List StatisticRow) {row : StatisticRow}
      → In row (empty_rows from to used rows)
      → In row rows
        × (is_candidate from to used row ≡ true)
        × (is_blank (trim_space row.message) ≡ true)
  unfolding empty_rows
  empty_rows-In [] i = elim i [ ]
  empty_rows-In (r ∷ rows) i =
      let kept =
        kept_or_passed
          (λ a. (is_candidate from to used a ≡ true) × (is_blank (trim_space a.message) ≡ true)) _
          (λ e. and_both (is_candidate from to used r) _ e)
          (λ j. let x = empty_rows-In rows j in (x.0, (x.1, x.2))) i in
      (kept.0, kept.1.0, kept.1.1)

-- What is chosen: the first exact row, or else the only row without a text, which has an id.
choose_row-lem :
    (exact blank : List StatisticRow) {row : StatisticRow}
    → choose_row exact blank ≡ some row
    → In row exact ⊎ ((exact ≡ []) × (blank ≡ row ∷ []) × (is_blank row.sms_id ≡ false))
unfolding choose_row
choose_row-lem (r ∷ exact) blank e = inl (rw (sym (some_same e)) at_head)
choose_row-lem [] [] e = absurd (none-some e)
choose_row-lem [] (r ∷ []) {row} e = elim (Bool-cases (is_blank r.sms_id)) [
  | inl blank ↦ absurd (none-some (rw (choose_row, blank) at e))
  | inr given ↦
      let same : r ≡ row = some_same (rw (choose_row, given) at e) in
      inr (
        refl,
        ap (λ a. a ∷ []) same,
        ap (λ (a : StatisticRow). is_blank a.sms_id) (sym same) ∙ given,
      )
]
choose_row-lem [] (r ∷ q ∷ blank) e = absurd (none-some e)

-- A row that is matched with a message is one of the page's, an outgoing one between the message's
-- numbers whose id no other message of the round has taken; its text is the message's, or it has no
-- text and an id, it is the only such row, and no row has the message's text.
pub match_statistic-lem :
    (from to text : Text) (rows : List StatisticRow) (used : List Text) {row : StatisticRow}
    → match_statistic from to text rows used ≡ some row
    → In row rows
      × (is_candidate (canonical from) (canonical to) used row ≡ true)
      × (IsExact (trim_space text) row
          ⊎ ((is_blank (trim_space row.message) ≡ true)
              × (is_blank row.sms_id ≡ false)
              × (exact_rows (canonical from) (canonical to) (trim_space text) used rows ≡ [])
              × (empty_rows (canonical from) (canonical to) used rows ≡ row ∷ [])))
unfolding match_statistic
match_statistic-lem from to text rows used {row} e =
    elim (choose_row-lem (exact_rows (canonical from) (canonical to) (trim_space text) used rows)
      (empty_rows (canonical from) (canonical to) used rows) e) [
        | inl i ↦
            let x = exact_rows-In (canonical from) (canonical to) (trim_space text) used rows i in
            (x.0, x.1, inl x.2)
        | inr (none_exact, only, given) ↦
            let x = empty_rows-In (canonical from) (canonical to) text used rows (alone only) in
            (x.0, x.1, inr (x.2, given, none_exact, only))
      ]
  where
    alone : {rs : List StatisticRow} → rs ≡ row ∷ [] → In row rs
    alone y = rw (y) at_head
