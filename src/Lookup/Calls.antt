-- ===== src/Lookup/Calls.antt =====
-- internal/app/app.go and internal/http/smsc/handler.go: what works on the lookups runs in any order,
-- one call after the other.
use sms.Prelude.{ℕ, List, [], ◌∷◌}
use sms.Store.Types.{Uuid}
use sms.Webhooks.Deliver.{Answer}
use sms.Lookup.Callbacks.{ProviderLookupRequest}
use sms.Lookup.World.{LookupWorld, Outside, Setup, View}
use sms.Lookup.Stored.{drain_callbacks}
use sms.Lookup.Enrich.{Budget, lookup_tick}
use sms.Lookup.Receiving.{CallbackRequest, receive_callback}

-- A round of runLookupLoop that finds no CSV file to parse, one of runLookupCallbackLoop, and a callback of the provider.
pub data LookupCall : Type 0 where
  ticks :
      (view : View) (now : ℕ) (budget : Budget) (out : Uuid → Outside) (answer : Uuid → Answer)
      → LookupCall
  drains : (now : ℕ) (requests : List ProviderLookupRequest) → LookupCall
  receives :
      (now : ℕ) (requests : List ProviderLookupRequest) (request : CallbackRequest) → LookupCall

unfoldable pub run_call : Setup → LookupCall → LookupWorld → LookupWorld
run_call setup (ticks view now budget out answer) w = lookup_tick setup view now budget out answer w
run_call setup (drains now requests) w = drain_callbacks setup now requests w
run_call setup (receives now requests request) w = receive_callback setup now requests request w

unfoldable pub run_calls : Setup → List LookupCall → LookupWorld → LookupWorld
run_calls setup [] w = w
run_calls setup (call ∷ calls) w = run_calls setup calls (run_call setup call w)
