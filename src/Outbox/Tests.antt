-- ===== src/Outbox/Tests.antt =====
-- A client with a message queued twice over, one of its jobs uncertain: what the worker does.
use sms.Prelude.{◌≡◌, refl, ◌⊎◌, true, false, Option, none, some, [], ◌∷◌, All, In}
use sms.Prelude.Text.{Text, codes, text_eq, trim_space, is_digit}
use sms.Store.Types.{SendJob, send_pending, send_uncertain, send_processing}
use sms.Store.Outbox.{claim_send_jobs_fair, claimed, is_ready}
use sms.Billing.Ledger.Tests.{opening, opening-Valid}
use sms.Msisdn.{canonical, digits_only, sender_of_digits, normalize_sender}
use sms.Outbox.Match.{
  StatisticRow, match_statistic, is_candidate, is_blank, exact_rows, empty_rows, choose_row,
  is_used,
}
use sms.Outbox.World.{
  World, Outside, SendError, sent_as, send_failed, page, allowed, need_retry, classify_error,
}
use sms.Outbox.Worker.{process, on_answer}
use sms.Outbox.Tick.{Round, tick}
use sms.Outbox.Lifecycle.{AllLive}
use sms.Outbox.Claiming.{NoRepeat, claim_send_jobs_fair-Ready}
use sms.Outbox.Refinement.{tick-refines}
use sms.Outbox.Posting.{MaySend, Posts, process-Posts}
use sms.Outbox.Caution.{Cautious, on_answer-Cautious}
use sms.Outbox.Matching.{IsExact, match_statistic-lem}
use sms.Billing.Ledger.Moves.{stays, Moves-Valid}
use sms.Outbox.Solvency.{IsSolvent, tick-IsSolvent}

abbrev fresh_job : SendJob
fresh_job = record {
  id = 50;
  sms_message_id = 20;
  client_id = some 7;
  status = send_pending;
  attempt = 0;
  available_at = 10;
  locked_at = none;
  locked_by = none;
  last_error = none;
}

abbrev uncertain_job : SendJob
uncertain_job = record fresh_job {
  id = 51;
  status = send_uncertain;
  attempt = 1;
  last_error = some need_retry;
}

abbrev held_job : SendJob
held_job = record uncertain_job {
  status = send_processing;
  locked_at = some 150_000;
  locked_by = some 5;
}

abbrev start_world : World
start_world = record {
  db = record opening { send_jobs = fresh_job ∷ uncertain_job ∷ [] };
  stat_used = [];
  last_rec = none;
}

abbrev held_world : World
held_world = record start_world { db = record opening { send_jobs = fresh_job ∷ held_job ∷ [] } }

abbrev sent_row : StatisticRow
sent_row = record {
  sms_id = codes "p1";
  sender_number = codes "79991110000";
  receiver_number = codes "79991112233";
  message = codes "Hello ";
  incoming = false;
  pdu = 1;
  sent = true;
  delivered = false;
}

abbrev answers : Outside
answers = record {
  settings_available = true;
  has_limiter = true;
  client_rate = allowed;
  provider_rate = allowed;
  has_adapter = true;
  answer = sent_as (codes "p2");
  answer_body = none;
  statistic = page [];
}

abbrev timeout : SendError
timeout = record {
  not_configured = false;
  http_status = 0;
  is_timeout = true;
  message = codes "timeout";
}

abbrev round : Round
round = record {
  of_job = λ id. answers;
  of_message = λ id. answers;
  has_adapter = true;
  inbox = λ n. some (sent_row ∷ []);
}

abbrev no_object : Text → Option (Text × Text)
no_object body = none

tick-refines_example :
    AllLive start_world.db.send_jobs (tick 5 200_000 no_object round start_world).1.db.send_jobs
    × NoRepeat (tick 5 200_000 no_object round start_world).1.db.send_jobs
tick-refines_example = tick-refines 5 200_000 no_object round start_world (refl, (refl, tt))

process-Posts_example :
    Posts
      (MaySend 5 held_job answers held_world)
      held_job
      answers
      held_world
      (process 5 200_000 no_object held_job answers held_world)
process-Posts_example = process-Posts 5 200_000 no_object held_job answers held_world

on_answer-Cautious_example :
    Cautious 5 200_000 held_job held_world.db.send_jobs
      (on_answer 5 200_000 no_object (send_failed timeout) held_job 20 held_world).db.send_jobs
unfolding classify_error
on_answer-Cautious_example =
    on_answer-Cautious 5 200_000 held_job no_object (send_failed timeout) 20 held_world refl

claim_send_jobs_fair-Ready_example :
    All
      (λ k.
        (j : SendJob) × (In j start_world.db.send_jobs
          × (is_ready 200_000 opening.clients j ≡ true))
        × (k ≡ claimed 200_000 5 j))
      (claim_send_jobs_fair 200_000 5 8 opening.clients start_world.db.send_jobs).0
claim_send_jobs_fair-Ready_example =
    claim_send_jobs_fair-Ready 200_000 5 8 opening.clients start_world.db.send_jobs
      (refl, (refl, tt))

matched :
    match_statistic (codes "79991110000") (codes "79991112233") (codes "Hello") (sent_row ∷ []) []
    ≡ some sent_row
unfolding match_statistic canonical digits_only is_digit sender_of_digits normalize_sender
    exact_rows empty_rows choose_row is_candidate is_used trim_space text_eq
matched = refl

match_statistic-lem_example :
    In sent_row (sent_row ∷ [])
    × (is_candidate (canonical (codes "79991110000")) (canonical (codes "79991112233")) [] sent_row
        ≡ true)
    × (IsExact (trim_space (codes "Hello")) sent_row
        ⊎ ((is_blank (trim_space sent_row.message) ≡ true)
            × (is_blank sent_row.sms_id ≡ false)
            × (exact_rows
                  (canonical (codes "79991110000"))
                  (canonical (codes "79991112233"))
                  (trim_space (codes "Hello"))
                  []
                  (sent_row ∷ [])
                ≡ [])
            × (empty_rows
                  (canonical (codes "79991110000"))
                  (canonical (codes "79991112233"))
                  []
                  (sent_row ∷ [])
                ≡ sent_row ∷ [])))
match_statistic-lem_example =
    match_statistic-lem (codes "79991110000") (codes "79991112233") (codes "Hello") (sent_row ∷ [])
      [] matched

start_world-IsSolvent : IsSolvent start_world
start_world-IsSolvent = Moves-Valid opening-Valid (stays refl refl refl)

tick-IsSolvent_example : IsSolvent (tick 5 200_000 no_object round start_world).1
tick-IsSolvent_example = tick-IsSolvent 5 200_000 no_object round start_world start_world-IsSolvent
