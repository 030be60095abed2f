-- ===== src/Lookup/Recounting.antt =====
-- The row of a job after a statement on it.
use sms.Prelude.{
  ℕ, ◌≡◌, refl, sym, Bool, true, false, ◌&&◌, Option, none, some, List, [], ◌∷◌, find_first, inl,
  inr, arith, Bool-cases, ◌==◌,
}
use sms.Store.Types.{Uuid, LookupJob, LookupJobStatus, Db}
use sms.Lookup.Counters.{
  counted, update_lookup_job, refresh_lookup_job_counters, is_running_job, ended,
  finalize_lookup_job,
}
use sms.Lookup.World.{LookupWorld}

abbrev pub job_row : Uuid → List LookupJob → Option LookupJob
job_row id = find_first (λ (j : LookupJob). j.id == id)

first_of :
    (id : Uuid) (j : LookupJob) (js : List LookupJob)
    → (j.id == id) ≡ true
    → job_row id (j ∷ js) ≡ some j
first_of id j js e = rw e refl

update_head :
    (may : LookupJob → Bool) (set : LookupJob → LookupJob) (j : LookupJob) (js : List LookupJob)
    → may j ≡ true
    → update_lookup_job may set (j ∷ js) ≡ some (set j, set j ∷ js)
unfolding update_lookup_job
update_head may set j js e = rw (update_lookup_job, e) refl

-- An update of the job that is there: its new row, and the table that has it.
update_lookup_job-row :
    (id : Uuid) (may : LookupJob → Bool) (set : LookupJob → LookupJob) (js : List LookupJob)
    {job : LookupJob}
    → ((j : LookupJob) → (set j).id ≡ j.id)
    → ((j : LookupJob) → may j ≡ true → (j.id == id) ≡ true)
    → job_row id js ≡ some job
    → may job ≡ true
    → (ks : List LookupJob) × (update_lookup_job may set js ≡ some (set job, ks))
      × (job_row id ks ≡ some (set job))
unfolding update_lookup_job
update_lookup_job-row id may set [] k own e t = absurd (nothing e)
  where
    nothing : {r : LookupJob} → ◌≡◌ {A = Option LookupJob} none (some r) → ⊥
    nothing x = cc
update_lookup_job-row id may set (j ∷ js) {job} k own e t = elim (Bool-cases (j.id == id)) [
  | inl here ↦
      let same = row_eq (rw here at e) in
      let m : may j ≡ true = rw same t in
      rw (sym same)
        (set j ∷ js, update_head may set j js m, first_of id (set j) js (set_id (k j) here))
  | inr there ↦
      let (ks, u, r) = update_lookup_job-row id may set js k own (rw there at e) t in
      (j ∷ ks, rw (update_lookup_job, passed (may j) (own j) there, u) refl, rw there r)
]
  where
    row_eq : {r : LookupJob} → Option.some r ≡ some job → r ≡ job
    row_eq x = cc

    set_id : {m n : ℕ} → m ≡ n → (n == id) ≡ true → (m == id) ≡ true
    set_id x y = rw x y

    passed : (b : Bool) {c : Bool} → (b ≡ true → c ≡ true) → c ≡ false → b ≡ false
    passed true f x = absurd (both (f refl) x)
      where
        both : {c : Bool} → c ≡ true → c ≡ false → ⊥
        both p q = cc
    passed false f x = refl

-- The job as its counters are refreshed.
abbrev pub recounted : ℕ → LookupWorld → LookupJob → LookupJob
recounted now w job = counted now w.db.lookup_items job

pub refreshed :
    (now : ℕ) (id : Uuid) (w : LookupWorld) {job : LookupJob}
    → job_row id w.db.lookup_jobs ≡ some job
    → (job.id == id) ≡ true
    → (ks : List LookupJob) × (refresh_lookup_job_counters now id w.db
        ≡ some (recounted now w job, record (w.db) { lookup_jobs = ks }))
      × (job_row id ks ≡ some (recounted now w job))
unfolding refresh_lookup_job_counters
refreshed now id w e t =
    let (ks, u, r) =
      update_lookup_job-row id (λ j. j.id == id) (counted now w.db.lookup_items) w.db.lookup_jobs
        (λ j. refl) (λ j m. m) e t in
    (ks, rw (refresh_lookup_job_counters, u) refl, r)

pub finalized :
    (now : ℕ) (status : LookupJobStatus) (id : Uuid) (db : Db) {job : LookupJob}
    → job_row id db.lookup_jobs ≡ some job
    → is_running_job id job ≡ true
    → (ks : List LookupJob) × (finalize_lookup_job now status id db
        ≡ some (ended now status job, record db { lookup_jobs = ks }))
      × (job_row id ks ≡ some (ended now status job))
unfolding finalize_lookup_job
finalized now status id db e t =
    let (ks, u, r) =
      update_lookup_job-row id (is_running_job id) (ended now status) db.lookup_jobs (λ j. refl)
        (λ j m. first _ _ m) e t in
    (ks, rw (finalize_lookup_job, u) refl, r)
  where
    first : (a b : Bool) → (a && b) ≡ true → a ≡ true
    first a b x = ground arith
