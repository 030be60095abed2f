-- ===== src/Outbox/Match.antt =====
-- internal/messaging/match.go: which row of the provider's statistic is a message.
use sms.Prelude.{
  Bool, true, false, ◌&&◌, ◌||◌, not, Option, none, some, List, [], ◌∷◌, any, if◌then◌else◌,
}
use sms.Prelude.Text.{Text, text_eq, trim_space}
use sms.Prelude.{ℕ}
use sms.Msisdn.{canonical}

-- runexis.StatisticRow without its date.
pub record StatisticRow : Type 0 where
  pub sms_id : Text
  pub sender_number : Text
  pub receiver_number : Text
  pub message : Text
  pub incoming : Bool
  pub pdu : ℕ
  pub sent : Bool
  pub delivered : Bool

abbrev pub is_blank : Text → Bool
is_blank [] = true
is_blank (r ∷ s) = false

-- A Go map used as a set.
unfoldable pub is_used : List Text → Text → Bool
is_used used id = any (λ u. text_eq u id) used

-- The row is not passed over: its direction, its numbers, an id that is not used.
unfoldable pub is_candidate : Text → Text → List Text → StatisticRow → Bool
is_candidate want_from want_to used row =
    not row.incoming
    && text_eq (canonical row.sender_number) want_from
    && text_eq (canonical row.receiver_number) want_to
    && (is_blank row.sms_id || not (is_used used row.sms_id))

unfoldable pub exact_rows : Text → Text → Text → List Text → List StatisticRow → List StatisticRow
exact_rows want_from want_to want_text used [] = []
exact_rows want_from want_to want_text used (row ∷ rows) =
    let rest = exact_rows want_from want_to want_text used rows in
    let msg = trim_space row.message in
    if is_candidate want_from want_to used row && not (is_blank msg) && text_eq msg want_text
    then row ∷ rest
    else rest

unfoldable pub empty_rows : Text → Text → List Text → List StatisticRow → List StatisticRow
empty_rows want_from want_to used [] = []
empty_rows want_from want_to used (row ∷ rows) =
    let rest = empty_rows want_from want_to used rows in
    if is_candidate want_from want_to used row && is_blank (trim_space row.message)
    then row ∷ rest
    else rest

-- The first exact row, or a single row with no text and an id.
unfoldable pub choose_row : List StatisticRow → List StatisticRow → Option StatisticRow
choose_row (row ∷ rows) blank = some row
choose_row [] (row ∷ []) = if is_blank row.sms_id then none else some row
choose_row [] _ = none

-- `none` is the second result false.
unfoldable pub match_statistic :
    Text → Text → Text → List StatisticRow → List Text → Option StatisticRow
match_statistic from to text rows used =
    let want_from = canonical from in
    let want_to = canonical to in
    choose_row (exact_rows want_from want_to (trim_space text) used rows)
      (empty_rows want_from want_to used rows)
