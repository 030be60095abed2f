-- ===== src/Outbox/Claiming.antt =====
-- internal/db/sqlc/outbox.sql.go, ClaimSendJobsFair: which rows are taken, in a table where no id
-- repeats.
use sms.Prelude.{
  ℕ, ◌≡◌, refl, sym, ◌∙◌, ap, inl, inr, Bool, true, false, ◌&&◌, ◌||◌, Option, some, none, List, [],
  ◌∷◌, In, at_head, in_tail, in_cons, In-filter_by, All, any, leb, filter_by, arith, Bool-cases,
  Option-cases, if◌then◌else◌, ◌==◌, ==_iff,
}
use sms.Store.Types.{Uuid, Client, SendJob}
use sms.Store.Outbox.{
  is_waiting, is_ready, may_send, same_client, goes_before, first_job, chosen, is_chosen, claimed,
  claim_rows, claim_send_jobs_fair,
}
use sms.Outbox.Lifecycle.{AllLive, no_rows, row, Lives-refl, one-Step, take_up}

-- The primary key of send_jobs.
abbrev pub NoRepeat : List SendJob → Type 0
NoRepeat [] = Unit
NoRepeat (j ∷ js) = (any (λ k. j.id == k.id) js ≡ false) × NoRepeat js

some_eq : {a b : SendJob} → ◌≡◌ {A = Option SendJob} (some a) (some b) → a ≡ b
some_eq x = cc

none_ne : {b : SendJob} → ◌≡◌ {A = Option SendJob} none (some b) → ⊥
none_ne x = cc

here_if : {a p : SendJob} {js : List SendJob} → a ≡ p → In p (a ∷ js)
here_if e = rw (e) at_head

-- The better of a row and one that is found further on.
better-In :
    {j k p : SendJob} {js : List SendJob} (b : Bool)
    → (k ≡ p → In p js)
    → (if b then j else k) ≡ p
    → In p (j ∷ js)
better-In true later x = here_if x
better-In false later x = in_tail (later x)

first_job-In :
    (c : Option Uuid) (js : List SendJob) {p : SendJob} → first_job c js ≡ some p → In p js
unfolding first_job
first_job-In c [] e = absurd (none_ne e)
first_job-In c (j ∷ js) e = elim (Bool-cases (same_client j.client_id c)) [
  | inr other ↦ in_tail (first_job-In c js (rw (first_job, other) at e))
  | inl same ↦ elim (Option-cases (first_job c js)) [
    | inl alone ↦ here_if (some_eq (rw (first_job, same, alone) at e))
    | inr (k, found) ↦
        better-In (goes_before j k) (λ x. first_job-In c js (found ∙ ap (λ y. some y) x))
          (some_eq (rw (first_job, same, found) at e))
  ]
]

chosen-In :
    (cs : List (Option Uuid)) (js : List SendJob) {p : SendJob} → In p (chosen cs js) → In p js
unfolding chosen
chosen-In [] js i = elim i [ ]
chosen-In (c ∷ cs) js i = elim (Option-cases (first_job c js)) [
  | inl missing ↦ chosen-In cs js (rw (chosen, missing) at i)
  | inr (k, found) ↦
      in_cons (λ p. In p js) (first_job-In c js found) (λ x. chosen-In cs js x)
        (rw (chosen, found) at i)
]

any-In :
    (f : SendJob → Bool) {p : SendJob} {js : List SendJob} → In p js → f p ≡ true → any f js ≡ true
any-In f at_head t = rw (t) refl
any-In f (in_tail {x = j} i) t = or_true (f j) (any-In f i t)
  where
    or_true : (b : Bool) {c : Bool} → c ≡ true → (b || c) ≡ true
    or_true true e = refl
    or_true false e = e

conflict : {b : Bool} → b ≡ true → b ≡ false → ⊥
conflict x y = cc

==_sym : (x y : ℕ) → (x == y) ≡ true → (y == x) ≡ true
==_sym x y e = (==_iff y x).1 (sym ((==_iff x y).0 e))

-- Two rows of a table with the same id are one.
unique :
    (a b : SendJob) (js : List SendJob)
    → NoRepeat js
    → In a js
    → In b js
    → (a.id == b.id) ≡ true
    → a ≡ b
unique a b js n at_head at_head e = refl
unique a b js n at_head (in_tail i) e = absurd (conflict (any-In _ i e) n.0)
unique a b js n (in_tail i) at_head e =
    absurd (conflict (any-In (λ k. b.id == k.id) i (==_sym a.id b.id e)) n.0)
unique a b js n (in_tail {xs = rest} i) (in_tail k) e = unique a b rest n.1 i k e

-- Some row of the choice has the key.
is_chosen-In :
    (picks : List SendJob) (j : SendJob)
    → is_chosen picks j ≡ true
    → (p : SendJob) × In p picks × ((p.id == j.id) ≡ true)
is_chosen-In [] j e = absurd (conflict refl (sym e))
is_chosen-In (p ∷ ps) j e = elim (Bool-cases (p.id == j.id)) [
  | inl same ↦ (p, at_head, same)
  | inr other ↦ (let r = is_chosen-In ps j (rw (other) at e) in (r.0, in_tail r.1, r.2))
]

-- What is chosen among the ready rows of a table is ready.
chosen_ready :
    (now : ℕ) (clients : List Client) (cs : List (Option Uuid)) (js : List SendJob) (j : SendJob)
    → NoRepeat js
    → In j js
    → is_chosen (chosen cs (filter_by (is_ready now clients) js)) j ≡ true
    → is_ready now clients j ≡ true
chosen_ready now clients cs js j n i e =
    let (p, among, same) = is_chosen-In (chosen cs (filter_by (is_ready now clients) js)) j e in
    let (there, ready) = In-filter_by (is_ready now clients) js (chosen-In cs _ among) in
    rw (unique p j js n there i same) at ready

-- Every row that a claim gives is one of the table's that is chosen, taken by the worker.
claim_rows-Taken :
    (now worker : ℕ) (picks js : List SendJob) (C : SendJob → Type 0)
    → ((j : SendJob) → In j js → is_chosen picks j ≡ true → C j)
    → All (λ k. (j : SendJob) × C j × (k ≡ claimed now worker j)) (claim_rows now worker picks js).0
unfolding claim_rows
claim_rows-Taken now worker picks [] C h = tt
claim_rows-Taken now worker picks (j ∷ js) C h = elim (Bool-cases (is_chosen picks j)) [
  | inl taken ↦
      rw (claim_rows, taken)
        (
          (j, h j at_head taken, refl),
          claim_rows-Taken now worker picks js C (λ k i. h k (in_tail i)),
        )
  | inr left ↦
      rw (claim_rows, left) (claim_rows-Taken now worker picks js C (λ k i. h k (in_tail i)))
]

ready_waits :
    (now : ℕ) (clients : List Client) (j : SendJob)
    → is_ready now clients j ≡ true
    → is_waiting j.status ≡ true
unfolding is_ready
ready_waits now clients j e =
    left_true (is_waiting j.status) (leb j.available_at now)
      (left_true (is_waiting j.status && leb j.available_at now) (may_send clients j.client_id) e)
  where
    left_true : (b c : Bool) → (b && c) ≡ true → b ≡ true
    left_true b c x = ground arith

claim_rows-AllLive :
    (now worker : ℕ) (picks js : List SendJob)
    → ((j : SendJob) → In j js → is_chosen picks j ≡ true → is_waiting j.status ≡ true)
    → AllLive js (claim_rows now worker picks js).1
unfolding claim_rows
claim_rows-AllLive now worker picks [] h = no_rows
claim_rows-AllLive now worker picks (j ∷ js) h =
    let rest = claim_rows-AllLive now worker picks js (λ k i. h k (in_tail i)) in
    elim (Bool-cases (is_chosen picks j)) [
      | inl taken ↦
          rw (claim_rows, taken) (row (one-Step refl refl (take_up (h j at_head taken))) rest)
      | inr left ↦ rw (claim_rows, left) (row (Lives-refl j) rest)
    ]

module _ (now worker limit : ℕ) (clients : List Client) (js : List SendJob) (n : NoRepeat js) where
  pub claim_send_jobs_fair-AllLive : AllLive js (claim_send_jobs_fair now worker limit clients js).1
  unfolding claim_send_jobs_fair
  claim_send_jobs_fair-AllLive =
      claim_rows-AllLive now worker _ js
        (λ j i e. ready_waits now clients j (chosen_ready now clients _ js j n i e))

  -- Every job that a claim gives was waiting and due, of an active client or of none, and it is taken
  -- by the worker.
  pub claim_send_jobs_fair-Ready :
      All
        (λ k.
          (j : SendJob) × (In j js × (is_ready now clients j ≡ true)) × (k ≡ claimed now worker j))
        (claim_send_jobs_fair now worker limit clients js).0
  unfolding claim_send_jobs_fair
  claim_send_jobs_fair-Ready =
      claim_rows-Taken now worker _ js (λ j. In j js × (is_ready now clients j ≡ true))
        (λ j i e. (i, chosen_ready now clients _ js j n i e))
