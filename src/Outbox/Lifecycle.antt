-- ===== src/Outbox/Lifecycle.antt =====
-- The abstract view of internal/outbox: the life of a queued job, and how the statements on the table
-- of jobs follow it, row by row.
use sms.Prelude.{
  ℕ, ◌≡◌, refl, sym, ◌∙◌, inl, inr, Bool, true, false, ◌&&◌, some, List, [], ◌∷◌, Bool-cases,
  Option-cases, ◌==◌, arith,
}
use sms.Store.Types.{
  Uuid, SendJobStatus, send_pending, send_processing, send_retry, send_done, send_uncertain,
  send_dead, SendJob,
}
use sms.Store.Outbox.{
  update_owned, owned_by, is_processing, is_waiting, locked_before, reclaim_stale_send_jobs,
}
use sms.Outbox.Effects.{is_left, Leaves, Ends, lost, ended, some_same, none-some}

-- A worker takes a job that waits, and leaves it with an outcome; a job whose worker has died is
-- taken back.
pub data Step : SendJobStatus → SendJobStatus → Type 0 where
  take_up : {s : SendJobStatus} → is_waiting s ≡ true → Step s send_processing
  leave : {s : SendJobStatus} → is_left s ≡ true → Step send_processing s
  take_back : Step send_processing send_uncertain

pub data LifePath : SendJobStatus → SendJobStatus → Type 0 where
  here : {s : SendJobStatus} → LifePath s s
  step : {s t u : SendJobStatus} → Step s t → LifePath t u → LifePath s u

LifePath-trans : {s t u : SendJobStatus} → LifePath s t → LifePath t u → LifePath s u
LifePath-trans here q = q
LifePath-trans (step a p) q = step a (LifePath-trans p q)

-- A status that a job never leaves.
abbrev pub is_final : SendJobStatus → Bool
is_final send_done = true
is_final send_dead = true
is_final _ = false

true-false : ◌≡◌ {A = Bool} false true → ⊥
true-false e = cc

final_stuck : (s : SendJobStatus) {t : SendJobStatus} → is_final s ≡ true → Step s t → ⊥
final_stuck send_done f (take_up w) = true-false w
final_stuck send_dead f (take_up w) = true-false w
final_stuck send_pending f a = true-false f
final_stuck send_retry f a = true-false f
final_stuck send_uncertain f a = true-false f
final_stuck send_processing f a = true-false f

-- A row before and after: the same job for the same message, further on its way; one whose way is at
-- its end is not written at all.
pub record Lives (j k : SendJob) : Type 0 where
  pub same_id : k.id ≡ j.id
  pub same_message : k.sms_message_id ≡ j.sms_message_id
  pub kept : is_final j.status ≡ true → k ≡ j
  pub path : LifePath j.status k.status

-- Of two tables: the same rows in the same places.
pub data AllLive : List SendJob → List SendJob → Type 0 where
  no_rows : AllLive [] []
  row :
      {j k : SendJob}
      → {js ks : List SendJob} → Lives j k
      → AllLive js ks
      → AllLive (j ∷ js) (k ∷ ks)

pub Lives-refl : (j : SendJob) → Lives j j
Lives-refl j = record { same_id = refl; same_message = refl; kept = λ f. refl; path = here }

pub one-Step :
    {j k : SendJob}
    → k.id ≡ j.id
    → k.sms_message_id ≡ j.sms_message_id
    → Step j.status k.status
    → Lives j k
one-Step {j} e m s = record {
  same_id = e;
  same_message = m;
  kept = λ f. absurd (final_stuck j.status f s);
  path = step s here;
}

Lives-trans : {a b c : SendJob} → Lives a b → Lives b c → Lives a c
Lives-trans x y = record {
  same_id = y.same_id ∙ x.same_id;
  same_message = y.same_message ∙ x.same_message;
  kept = λ f. y.kept (rw (x.kept f) f) ∙ x.kept f;
  path = LifePath-trans x.path y.path;
}

pub AllLive-refl : (js : List SendJob) → AllLive js js
AllLive-refl [] = no_rows
AllLive-refl (j ∷ js) = row (Lives-refl j) (AllLive-refl js)

pub AllLive-trans : {a b c : List SendJob} → AllLive a b → AllLive b c → AllLive a c
AllLive-trans no_rows no_rows = no_rows
AllLive-trans (row x xs) (row y ys) = row (Lives-trans x y) (AllLive-trans xs ys)

pub AllLive-same : {js ks : List SendJob} → ks ≡ js → AllLive js ks
AllLive-same {js} e = rw (e) (AllLive-refl js)

-- Being processed, a job is in a status that `leave` can start from.
processing_only : (s : SendJobStatus) → is_processing s ≡ true → s ≡ send_processing
processing_only send_processing e = refl
processing_only send_pending e = absurd (true-false e)
processing_only send_retry e = absurd (true-false e)
processing_only send_done e = absurd (true-false e)
processing_only send_uncertain e = absurd (true-false e)
processing_only send_dead e = absurd (true-false e)

from_processing : {s t : SendJobStatus} → is_processing s ≡ true → Step send_processing t → Step s t
from_processing {s} p a = rw (processing_only s p) a

owned_processing :
    (worker : ℕ) (id : Uuid) (j : SendJob)
    → (j.id == id && owned_by worker j) ≡ true
    → is_processing j.status ≡ true
owned_processing worker id j e = ground arith

update_owned-AllLive :
    (set : SendJob → SendJob) (id : Uuid) (worker : ℕ) (js : List SendJob) {ks : List SendJob}
    → Leaves set
    → update_owned set id worker js ≡ some ks
    → AllLive js ks
unfolding update_owned
update_owned-AllLive set id worker [] l e = absurd (none-some e)
update_owned-AllLive set id worker (j ∷ js) l e =
    elim (Bool-cases (j.id == id && owned_by worker j)) [
      | inl mine ↦ rw (sym (some_same (rw (update_owned, mine) at e))) (
          row
            (one-Step (l.id_kept j) (l.message_kept j)
              (from_processing (owned_processing worker id j mine) (leave (l.left j))))
            (AllLive-refl js))
      | inr other ↦ elim (Option-cases (update_owned set id worker js)) [
        | inl missing ↦ absurd (none-some (rw (update_owned, other, missing) at e))
        | inr (rest, found) ↦
            rw (sym (some_same (rw (update_owned, other, found) at e)))
              (row (Lives-refl j) (update_owned-AllLive set id worker js l found))
      ]
    ]

-- The end of the work on a job is one step of one row.
pub Ends-AllLive :
    (worker : ℕ) (id : Uuid) {js ks : List SendJob} → Ends worker id js ks → AllLive js ks
Ends-AllLive worker id (lost x same) = AllLive-same same
Ends-AllLive worker id {js} (ended set l e) = update_owned-AllLive set id worker js l e

pub reclaim_stale_send_jobs-AllLive :
    (now stale : ℕ) (js : List SendJob) → AllLive js (reclaim_stale_send_jobs now stale js)
unfolding reclaim_stale_send_jobs
reclaim_stale_send_jobs-AllLive now stale [] = no_rows
reclaim_stale_send_jobs-AllLive now stale (j ∷ js) =
    elim (Bool-cases (is_processing j.status && locked_before stale j.locked_at)) [
      | inl old ↦
          rw (reclaim_stale_send_jobs, old)
            (row (one-Step refl refl (from_processing (processing_of _ _ old) take_back))
              (reclaim_stale_send_jobs-AllLive now stale js))
      | inr fresh ↦
          rw (reclaim_stale_send_jobs, fresh)
            (row (Lives-refl j) (reclaim_stale_send_jobs-AllLive now stale js))
    ]
  where
    processing_of : (b c : Bool) → (b && c) ≡ true → b ≡ true
    processing_of b c e = ground arith
