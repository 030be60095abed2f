-- ===== src/Lookup/ClosedCalls.antt =====
-- What each single write of the lookup worker keeps is kept by any sequence of calls.
use sms.Prelude.{ℕ, List, [], ◌∷◌, ◌==◌}
use sms.Store.Types.{Uuid}
use sms.Lookup.Callbacks.{ProviderLookupRequest}
use sms.Lookup.World.{LookupWorld, Setup}
use sms.Lookup.Incoming.{IncomingResult}
use sms.Lookup.Stored.{no_call, should_conclude_callback, conclude_callback}
use sms.Lookup.Receiving.{
  CallbackRequest, incoming_of, conclude_if_done, is_valid, receive_callback,
}
use sms.Lookup.Calls.{LookupCall, ticks, drains, receives, run_call, run_calls}
use sms.Lookup.Closed.{Closed, if_holds}
use sms.Lookup.ClosedCallbacks.{apply_incoming-Closed, drain_callbacks-Closed}
use sms.Lookup.ClosedRounds.{lookup_tick-Closed}

module _ (P : LookupWorld → Type 0) (closed : Closed P) where
  conclude_if_done-Closed :
      (now : ℕ) (id : Uuid) (r : IncomingResult × LookupWorld)
      → P r.1
      → P (conclude_if_done now id r)
  unfolding conclude_if_done conclude_callback
  conclude_if_done-Closed now id (res, w) p =
      if_holds P (should_conclude_callback res) (if_holds P (id == 0) p (closed.inbox w _ p)) p

  receive_callback-Closed :
      (setup : Setup) (now : ℕ) (requests : List ProviderLookupRequest) (request : CallbackRequest)
      (w : LookupWorld)
      → P w
      → P (receive_callback setup now requests request w)
  unfolding receive_callback
  receive_callback-Closed setup now requests request w p =
      let stored = closed.inbox w _ p in
      if_holds P (is_valid request.signature)
        (conclude_if_done-Closed now _ _ (
          apply_incoming-Closed P closed setup now no_call requests (incoming_of request) _ stored))
        stored

  run_call-Closed :
      (setup : Setup) (call : LookupCall) (w : LookupWorld) → P w → P (run_call setup call w)
  unfolding run_call
  run_call-Closed setup (ticks view now budget out answer) w p =
      lookup_tick-Closed P closed setup view now budget out answer w p
  run_call-Closed setup (drains now requests) w p =
      drain_callbacks-Closed P closed setup now requests w p
  run_call-Closed setup (receives now requests request) w p =
      receive_callback-Closed setup now requests request w p

  -- What each single write keeps is kept by any sequence of calls.
  pub run_calls-Closed :
      (setup : Setup) (calls : List LookupCall) (w : LookupWorld)
      → P w
      → P (run_calls setup calls w)
  unfolding run_calls
  run_calls-Closed setup [] w p = p
  run_calls-Closed setup (call ∷ calls) w p =
      run_calls-Closed setup calls _ (run_call-Closed setup call w p)
