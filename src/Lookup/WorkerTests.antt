-- ===== src/Lookup/WorkerTests.antt =====
-- A round of the lookup worker on a job of two checks, one waiting for its result too long.
use sms.Prelude.{
  ◌+◌, ◌<◌, In, at_head, arith, ◌≡◌, refl, true, false, some, none, List, [], ◌∷◌, inl,
}
use sms.Prelude.Text.{codes, text_eq}
use sms.Store.Rows.{get_client_by_id}
use sms.Lookup.State.{Lifecycle, is_terminal_item, derive_job_terminal_status}
use sms.Lookup.Counters.{ended}
use sms.Lookup.Ending.{finalize_job}
use sms.Lookup.Worker.{poll_item}
use sms.Lookup.TimingOut.{poll_item-times_out}
use sms.Lookup.Finishing.{finalize_job-when_counted}
use sms.Lookup.Recounting.{job_row, recounted}
use sms.Store.Types.{Uuid, LookupItem, item_pending, item_queued, item_failed}
use sms.Webhooks.Deliver.{Answer, no_answer}
use sms.Billing.Ledger.Tests.{opening, opening-Valid, check_item, check_job}
use sms.Lookup.World.{LookupWorld, Outside, Setup, View, other_error}
use sms.Lookup.Enrich.{Budget, no_result}
use sms.Lookup.Receiving.{Signature}
use sms.Lookup.Calls.{LookupCall, ticks, drains, receives, run_calls}
use sms.Lookup.Forward.{IsLookupSolvent, run_calls-IsLookupSolvent, run_calls-Steps}
use sms.Lookup.Steps.{Steps}

abbrev waiting : LookupItem
waiting = record (check_item 41) {
  status = item_pending;
  provider_message_id = some (codes "p1");
  next_poll_at = some 5;
  sent_at = some 2;
}

abbrev world : LookupWorld
world = record {
  db = record opening {
    lookup_items =
        waiting
        ∷ record (check_item 42) { status = item_queued; provider_message_id = some (codes "p2") }
        ∷ [];
  };
  callbacks = [];
  hooks = record { clients = []; endpoints = []; deliveries = []; next_id = 1 };
}

world-Valid : IsLookupSolvent world
world-Valid = record {
  keyed = opening-Valid.keyed;
  first = opening-Valid.first;
  ids = opening-Valid.ids;
  proper = opening-Valid.proper;
  linked = opening-Valid.linked;
  balanced = opening-Valid.balanced;
  covered = opening-Valid.covered;
}

abbrev setup : Setup
setup = record { has_provider = true; max_attempts = none }

abbrev view : View
view = record { lookup_enabled = true; check_timeout_sec = 3600; poll_interval_sec = 30 }

abbrev silent : Uuid → Outside
silent id = record {
  in_time = true;
  is_limited = false;
  submitted = inl (other_error (codes "refused"));
  fetched = inl (other_error (codes "refused"));
  can_enrich = true;
  in_time_after = true;
  enriched = inl (other_error (codes "refused"));
}

abbrev budget : Budget
budget = record {
  may_submit = true;
  can_start = true;
  may_poll = true;
  may_enrich = true;
  may_deliver = true;
  reconcile_due = true;
  requests_before = [];
  requests_after = [];
}

abbrev quiet : Uuid → Answer
quiet id = no_answer

-- A callback that ends the second check, a round, the callbacks, and one more round.
abbrev calls : List LookupCall
calls =
    receives 4_000_000 [] (record {
      new_id = 7;
      payload_id = codes "p2";
      raw_payload = record { phone = codes "79139447008"; id = codes "p2" };
      normalized = record no_result {
        provider_message_id = codes "p2";
        lifecycle_status = Lifecycle.completed;
      };
      dedupe_key = codes "k";
      signature = Signature.valid;
    })
    ∷ ticks view 4_000_001 budget silent quiet
    ∷ drains 4_000_002 []
    ∷ ticks view 4_000_003 budget silent quiet
    ∷ []

run_calls-IsLookupSolvent_example : IsLookupSolvent (run_calls setup calls world)
run_calls-IsLookupSolvent_example = run_calls-IsLookupSolvent setup calls world world-Valid

run_calls-Steps_example : Steps world.db.lookup_items (run_calls setup calls world).db.lookup_items
run_calls-Steps_example = run_calls-Steps setup calls world (refl, (refl, tt))

-- The poll that ends the wait.
poll_item-times_out_example :
    (j : LookupItem) × In j
      (poll_item setup view 4_000_000 (silent 41) waiting world).db.lookup_items
    × (j.id ≡ 41)
    × (j.status ≡ item_failed)
unfolding get_client_by_id is_terminal_item text_eq
poll_item-times_out_example =
    poll_item-times_out setup view 4_000_000 (silent 41) waiting world (refl, (refl, tt)) at_head
      refl refl refl refl refl

-- One item is failed, one is open.
abbrev half_done : LookupWorld
half_done = record world {
  db = record opening {
    lookup_items =
        record (check_item 41) { status = item_failed }
        ∷ record (check_item 42) { status = item_queued }
        ∷ [];
  };
}

finalize_job-when_counted_example :
    let s = (recounted 9 half_done check_job).success_count in
    let f = (recounted 9 half_done check_job).failure_count in
    let after = job_row 40 (finalize_job setup 9 40 half_done).db.lookup_jobs in
    (s + f ≡ 2
      → after ≡ some (ended 9 (derive_job_terminal_status 2 s f) (recounted 9 half_done check_job)))
    × (s + f < 2 → after ≡ some (recounted 9 half_done check_job))
finalize_job-when_counted_example =
    finalize_job-when_counted setup 9 half_done check_job refl refl (omega arith) (omega arith)
