-- ===== src/Store/Outbox.antt =====
-- internal/db/sqlc/outbox.sql.go: the statements on send_jobs and provider_send_attempts. `now` is
-- now() of the database.
use sms.Prelude.{
  ℕ, Bool, true, false, ◌&&◌, ◌||◌, Option, none, some, List, [], ◌∷◌, any, take, filter_by, ltb,
  leb, ◌==◌, if◌then◌else◌,
}
use sms.Prelude.Text.{Text, codes}
use sms.Store.Types.{
  Uuid, Client, active, SendJobStatus, send_pending, send_processing, send_done, send_retry,
  send_uncertain, SendJob, ProviderSendAttempt, is_id,
}
use sms.Store.Rows.{get_client_by_id}

abbrev pub need_stat : Text
need_stat = codes "uncertain:need_stat"

abbrev pub is_processing : SendJobStatus → Bool
is_processing send_processing = true
is_processing _ = false

-- status IN ('pending', 'retry', 'uncertain')
abbrev pub is_waiting : SendJobStatus → Bool
is_waiting send_pending = true
is_waiting send_retry = true
is_waiting send_uncertain = true
is_waiting _ = false

abbrev rank : SendJobStatus → ℕ
rank send_uncertain = 0
rank send_retry = 1
rank _ = 2

-- status = 'processing' AND locked_by = the worker
abbrev pub owned_by : ℕ → SendJob → Bool
owned_by worker j = is_processing j.status && is_id j.locked_by worker

-- UPDATE … WHERE id = … AND status = 'processing' AND locked_by = …; `none` is no row.
unfoldable pub update_owned : (SendJob → SendJob) → Uuid → ℕ → List SendJob → Option (List SendJob)
update_owned set id worker [] = none
update_owned set id worker (j ∷ js) =
    if j.id == id && owned_by worker j
    then some (set j ∷ js)
    else elim (update_owned set id worker js) [ none ↦ none | some rest ↦ some (j ∷ rest) ]

abbrev pub parked : SendJobStatus → ℕ → ℕ → Option Text → SendJob → SendJob
parked status attempt at last_error j = record j {
  status = status;
  attempt = attempt;
  available_at = at;
  locked_at = none;
  locked_by = none;
  last_error = last_error;
}

unfoldable pub park_send_job :
    SendJobStatus → ℕ → ℕ → Option Text → Uuid → ℕ → List SendJob → Option (List SendJob)
park_send_job status attempt at last_error = update_owned (parked status attempt at last_error)

abbrev pub completed : SendJob → SendJob
completed j = record j { status = send_done; locked_at = none; locked_by = none; last_error = none }

unfoldable pub complete_send_job : Uuid → ℕ → List SendJob → Option (List SendJob)
complete_send_job = update_owned completed

abbrev pub touched : ℕ → SendJob → SendJob
touched now j = record j { locked_at = some now }

unfoldable pub touch_send_job_lock : ℕ → Uuid → ℕ → List SendJob → Option (List SendJob)
touch_send_job_lock now = update_owned (touched now)

-- locked_at < $1
abbrev pub locked_before : ℕ → Option ℕ → Bool
locked_before limit none = false
locked_before limit (some at) = ltb at limit

abbrev pub reclaimed : ℕ → SendJob → SendJob
reclaimed now j = record j {
  status = send_uncertain;
  last_error = some need_stat;
  attempt = if leb 1 j.attempt then j.attempt else 1;
  locked_at = none;
  locked_by = none;
  available_at = now;
}

unfoldable pub reclaim_stale_send_jobs : ℕ → ℕ → List SendJob → List SendJob
reclaim_stale_send_jobs now stale [] = []
reclaim_stale_send_jobs now stale (j ∷ js) =
    (if is_processing j.status && locked_before stale j.locked_at then reclaimed now j else j)
    ∷ reclaim_stale_send_jobs now stale js

abbrev pub is_active : Option Client → Bool
is_active none = false
is_active (some c) = elim c.status [ active ↦ true | _ ↦ false ]

-- A job without a client, or of an active one.
abbrev pub may_send : List Client → Option Uuid → Bool
may_send clients none = true
may_send clients (some client) = is_active (get_client_by_id client clients)

unfoldable pub is_ready : ℕ → List Client → SendJob → Bool
is_ready now clients j =
    is_waiting j.status && leb j.available_at now && may_send clients j.client_id

-- IS NOT DISTINCT FROM
abbrev pub same_client : Option Uuid → Option Uuid → Bool
same_client none none = true
same_client (some a) (some b) = a == b
same_client _ _ = false

-- MIN(available_at) of a group.
unfoldable pub earliest : Option Uuid → List SendJob → Option ℕ
earliest client [] = none
earliest client (j ∷ js) =
    let rest = earliest client js in
    if same_client j.client_id client
    then elim rest [
      | none ↦ some j.available_at
      | some at ↦ some (if ltb at j.available_at then at else j.available_at)
    ]
    else rest

abbrev sooner : Option ℕ → Option ℕ → Bool
sooner (some a) (some b) = leb a b
sooner _ _ = true

-- GROUP BY client_id ORDER BY MIN(available_at), by insertion.
unfoldable pub insert_client : List SendJob → Option Uuid → List (Option Uuid) → List (Option Uuid)
insert_client jobs c [] = c ∷ []
insert_client jobs c (d ∷ ds) =
    if sooner (earliest c jobs) (earliest d jobs) then c ∷ d ∷ ds else d ∷ insert_client jobs c ds

unfoldable pub clients_by_age : List SendJob → List SendJob → List (Option Uuid)
clients_by_age all [] = []
clients_by_age all (j ∷ js) =
    let rest = clients_by_age all js in
    if any (same_client j.client_id) rest then rest else insert_client all j.client_id rest

-- ORDER BY the status, available_at, id.
abbrev pub goes_before : SendJob → SendJob → Bool
goes_before a b =
    ltb (rank a.status) (rank b.status)
    || (rank a.status == rank b.status
        && (ltb a.available_at b.available_at
            || (a.available_at == b.available_at && leb a.id b.id)))

-- The first job of a client in that order: LIMIT 1.
unfoldable pub first_job : Option Uuid → List SendJob → Option SendJob
first_job client [] = none
first_job client (j ∷ js) =
    let rest = first_job client js in
    if same_client j.client_id client
    then elim rest [ none ↦ some j | some k ↦ some (if goes_before j k then j else k) ]
    else rest

unfoldable pub chosen : List (Option Uuid) → List SendJob → List SendJob
chosen [] jobs = []
chosen (c ∷ cs) jobs = elim (first_job c jobs) [
  | none ↦ chosen cs jobs
  | some j ↦ j ∷ chosen cs jobs
]

abbrev pub claimed : ℕ → ℕ → SendJob → SendJob
claimed now worker j = record j {
  status = send_processing;
  locked_at = some now;
  locked_by = some worker;
}

abbrev pub is_chosen : List SendJob → SendJob → Bool
is_chosen picks j = any (λ (p : SendJob). p.id == j.id) picks

-- UPDATE … WHERE id IN (…): the table, and the rows that RETURNING gives.
unfoldable pub claim_rows : ℕ → ℕ → List SendJob → List SendJob → List SendJob × List SendJob
claim_rows now worker picks [] = ([], [])
claim_rows now worker picks (j ∷ js) =
    let (rows, table) = claim_rows now worker picks js in
    if is_chosen picks j
    then (claimed now worker j ∷ rows, claimed now worker j ∷ table)
    else (rows, j ∷ table)

-- At most one job of each client, of at most `limit` clients.
unfoldable pub claim_send_jobs_fair :
    ℕ → ℕ → ℕ → List Client → List SendJob → List SendJob × List SendJob
claim_send_jobs_fair now worker limit clients jobs =
    let ready = filter_by (is_ready now clients) jobs in
    claim_rows now worker (chosen (take limit (clients_by_age ready ready)) ready) jobs

-- ORDER BY attempt DESC, created_at DESC LIMIT 1; the table is newest first.
unfoldable pub get_latest_send_attempt :
    Uuid → List ProviderSendAttempt → Option ProviderSendAttempt
get_latest_send_attempt job [] = none
get_latest_send_attempt job (a ∷ attempts) =
    let rest = get_latest_send_attempt job attempts in
    if a.send_job_id == job
    then elim rest [ none ↦ some a | some b ↦ some (if leb b.attempt a.attempt then a else b) ]
    else rest
