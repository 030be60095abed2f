-- ===== src/Lookup/Forward.antt =====
-- What the calls on the lookups do to the items and to the ledger.
use sms.Prelude.{refl, List}
use sms.Store.Types.{Uuid, LookupItem, Db}
use sms.Billing.Ledger.Invariant.{Valid}
use sms.Billing.Ledger.Moves.{stays, Moves-Valid}
use sms.Billing.Ledger.Reaping.{or_same-Valid}
use sms.Billing.Ledger.RemainderMoves.{settle_lookup_item-Moves, release_lookup_job_remainder-Moves}
use sms.Lookup.Claims.{claim_fair}
use sms.Lookup.World.{LookupWorld, Setup}
use sms.Lookup.Calls.{LookupCall, run_calls}
use sms.Lookup.Closed.{Reaches, Closed}
use sms.Lookup.ClosedCalls.{run_calls-Closed}
use sms.Lookup.Settling.{
  Marks, same, marked, settle_lookup_item-Marks, release_lookup_job_remainder-Marks,
}
use sms.Lookup.Steps.{Steps, Steps-refl, Steps-trans, map-Steps}
use sms.Lookup.Changes.{transition_lookup_item-Steps, set_lookup_item_billing_action-Steps}
use sms.Lookup.Unique.{UniqueIds, claim_fair-Steps, Steps-UniqueIds}

-- The ledger of the worker's database is in order.
abbrev pub IsLookupSolvent : LookupWorld → Type 0
IsLookupSolvent w = Valid w.db

IsLookupSolvent-Closed : Closed IsLookupSolvent
unfolding claim_fair
IsLookupSolvent-Closed = record {
  items = λ now t w i db a e v.
      (let (is, d, s) = transition_lookup_item-Steps now t w.db a e in
        rw d (Moves-Valid v (stays refl refl refl)));
  claimed = λ ready at set clients per w c v. Moves-Valid v (stays refl refl refl);
  touched = λ set w k v. Moves-Valid v (stays refl refl refl);
  jobs = λ w js v. Moves-Valid v (stays refl refl refl);
  settled = λ id is_capture w v.
      or_same-Valid w.db _ v (λ d e. settle_lookup_item-Moves id is_capture w.db v e);
  remainder =
      λ id w v. or_same-Valid w.db _ v (λ d e. release_lookup_job_remainder-Moves id w.db v e);
  hooks = λ w h v. v;
  inbox = λ w cs v. v;
}

-- Whatever the calls on the lookups are, rounds of the worker that find no CSV file to parse, rounds
-- of its callbacks and callbacks of the provider, in any order, they keep the ledger in order.
pub run_calls-IsLookupSolvent :
    (setup : Setup) (calls : List LookupCall) (w : LookupWorld)
    → IsLookupSolvent w
    → IsLookupSolvent (run_calls setup calls w)
run_calls-IsLookupSolvent = run_calls-Closed IsLookupSolvent IsLookupSolvent-Closed

module _ (before : List LookupItem) (unique : UniqueIds before) where
  abbrev pub GoesOn : LookupWorld → Type 0
  GoesOn w = Steps before w.db.lookup_items

  Marks-Steps : {id : Uuid} {db db' : Db} → Marks id db db' → Steps db.lookup_items db'.lookup_items
  Marks-Steps {id} {db} (same e) = rw (e.items) (Steps-refl db.lookup_items)
  Marks-Steps {id} {db} (marked action cost e j) =
      rw e (set_lookup_item_billing_action-Steps action cost id db.lookup_items)

  pub GoesOn-Closed : Closed GoesOn
  GoesOn-Closed = record {
    items = λ now t w i db a e s.
        (let (is, d, t') = transition_lookup_item-Steps now t w.db a e in
          rw d (Steps-trans before w.db.lookup_items is s t'));
    claimed = λ ready at set clients per w c s. Steps-trans before w.db.lookup_items _ s (
        claim_fair-Steps ready at set clients per w.db
          (λ i r. record {
            forward = c.forward i r;
            polls = λ h. rw (c.same_polls i) h;
            same_id = c.same_id i;
            same_job = c.same_job i;
            same_client = c.same_client i;
            same_price = c.same_price i;
          })
          (Steps-UniqueIds before w.db.lookup_items s unique));
    touched = λ set w k s. Steps-trans before w.db.lookup_items _ s (
        map-Steps set w.db.lookup_items λ i h. record {
          forward = rw (k.same_status i) Reaches.stays;
          polls = λ q. rw (k.same_polls i) q;
          same_id = k.same_id i;
          same_job = k.same_job i;
          same_client = k.same_client i;
          same_price = k.same_price i;
        });
    jobs = λ w js s. s;
    settled = λ id is_capture w s.
        Steps-trans before w.db.lookup_items _ s
          (Marks-Steps (settle_lookup_item-Marks id is_capture w.db));
    remainder = λ id w s.
        Steps-trans before w.db.lookup_items _ s
          (Marks-Steps (release_lookup_job_remainder-Marks 0 id w.db));
    hooks = λ w h s. s;
    inbox = λ w cs s. s;
  }

-- Where no id repeats, calls on the lookups (rounds of the worker that find no CSV file to parse,
-- rounds of its callbacks and callbacks of the provider, in any order) lose and add no item and take
-- each of them a step: its status
-- is as before or reached by steps of the table of transitions; at most 120 polls stay at most 120; and
-- its id, its job, its client and its price are as before.
pub run_calls-Steps :
    (setup : Setup) (calls : List LookupCall) (w : LookupWorld)
    → UniqueIds w.db.lookup_items
    → Steps w.db.lookup_items (run_calls setup calls w).db.lookup_items
run_calls-Steps setup calls w u =
    run_calls-Closed (GoesOn w.db.lookup_items u) (GoesOn-Closed w.db.lookup_items u) setup calls w
      (Steps-refl w.db.lookup_items)
