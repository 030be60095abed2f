-- ===== src/Lookup/CallbackTests.antt =====
-- Callbacks of the provider about a check that waits, and twenty about no check before one of them.
use sms.Prelude.{ℕ, zero, suc, ◌≡◌, ◌⊎◌, refl, inr, true, false, none, some, List, [], ◌∷◌, All}
use sms.Prelude.Text.{codes, text_eq}
use sms.Store.Types.{LookupItem, item_pending}
use sms.Billing.Ledger.Tests.{opening, check_item}
use sms.Lookup.State.{Lifecycle}
use sms.Lookup.Items.{sort_items, insert_item}
use sms.Lookup.Callbacks.{
  ProviderLookupCallback, insert_callback, sort_callbacks, join_requests,
  list_unprocessed_provider_lookup_callbacks, list_lookup_items_by_provider_message,
  list_open_lookup_items_for_callback_send_id, list_open_lookup_items_for_callback_phone,
  list_open_lookup_items_for_callback_phone_tail,
}
use sms.Lookup.World.{LookupWorld, Setup}
use sms.Lookup.Update.{apply_provider_update}
use sms.Lookup.Incoming.{
  IncomingCallback, IncomingResult, callback_phone_digits, phone_tail, pick_callback_items,
  items_by_id, items_by_phone, lookup_callback_items, picked_of, update_of, apply_incoming,
}
use sms.Lookup.Stored.{
  no_call, incoming_from_stored, should_conclude_callback, apply_stored_callback,
  apply_stored_callbacks, conclude_callback, reopen_callbacks,
}
use sms.Lookup.Enrich.{no_result}
use sms.Lookup.Receiving.{CallbackRequest, Signature, received, callback_row, receive_callback}
use sms.Lookup.Steps.{Rows}
use sms.Lookup.Alone.{Kept}
use sms.Lookup.Unsigned.{Untouched, receive_callback-unsigned}
use sms.Lookup.Targets.{Target, apply_incoming-Targets}
use sms.Lookup.Stuck.{Waits, apply_stored_callbacks-stuck, IsBack, conclude_callback-reopened}

abbrev waiting : LookupItem
waiting = record (check_item 41) {
  status = item_pending;
  provider_code = codes "smsc";
  provider_message_id = some (codes "p1");
}

abbrev world : LookupWorld
world = record {
  db = record opening { lookup_items = waiting ∷ [] };
  callbacks = [];
  hooks = record { clients = []; endpoints = []; deliveries = []; next_id = 1 };
}

abbrev setup : Setup
setup = record { has_provider = true; max_attempts = none }

abbrev forged : CallbackRequest
forged = record {
  new_id = 7;
  payload_id = codes "p1";
  raw_payload = record { phone = codes "79139447008"; id = codes "p1" };
  normalized = record no_result {
    provider_message_id = codes "p1";
    lifecycle_status = Lifecycle.completed;
  };
  dedupe_key = codes "k";
  signature = Signature.invalid;
}

receive_callback-unsigned_example :
    Untouched world (receive_callback setup 5 [] forged world)
    × Untouched world
        (apply_stored_callback setup 6 [] (callback_row Signature.invalid 5 forged) world).1
receive_callback-unsigned_example =
    receive_callback-unsigned setup 5 6 [] [] forged world world λ e. invalid_valid e
  where
    invalid_valid : Signature.invalid ≡ Signature.valid → ⊥
    invalid_valid x = cc

-- A report that the check is complete.
abbrev final_report : IncomingCallback
final_report = record {
  provider_message_id = codes "p1";
  phone_digits = [];
  normalized = forged.normalized;
  skip_enrich = true;
}

apply_incoming-Targets_example :
    ((apply_incoming setup 5 no_call [] final_report world).1 ≡ world)
    ⊎ ((i : LookupItem) × Target 5 [] final_report world i
        × Rows
            (Kept i.id)
            world.db.lookup_items
            (apply_incoming setup 5 no_call [] final_report world).1.db.lookup_items
        × ((apply_incoming setup 5 no_call [] final_report world).1
            ≡ (apply_provider_update setup 5 no_call (update_of final_report i) world).1))
apply_incoming-Targets_example =
    apply_incoming-Targets setup 5 no_call [] final_report world (refl, tt)

-- A row for a phone that no check has.
abbrev unknown_phone : ℕ → ProviderLookupCallback
unknown_phone id = record (received 1 forged) {
  id = id;
  provider_message_id = none;
  raw_payload = some (record { phone = codes "75550000000"; id = [] });
}

abbrev unknown_phones : ℕ → List ProviderLookupCallback → List ProviderLookupCallback
unknown_phones zero rest = rest
unknown_phones (suc n) rest = unknown_phone (suc n) ∷ unknown_phones n rest

-- The last row would complete the check.
abbrev clogged : LookupWorld
clogged = record world {
  callbacks = unknown_phones 20 (record (callback_row Signature.valid 2 forged) { id = 21 } ∷ []);
}

clogged-Waits :
    All
      (Waits 100 [] clogged.db.lookup_items)
      (list_unprocessed_provider_lookup_callbacks 20 clogged.callbacks)
unfolding list_unprocessed_provider_lookup_callbacks sort_callbacks insert_callback picked_of
    lookup_callback_items items_by_id items_by_phone pick_callback_items incoming_from_stored
    callback_phone_digits phone_tail sort_items insert_item join_requests
    list_lookup_items_by_provider_message list_open_lookup_items_for_callback_send_id
    list_open_lookup_items_for_callback_phone list_open_lookup_items_for_callback_phone_tail text_eq
clogged-Waits = (
  inr (refl, refl),
  (
    inr (refl, refl),
    (
      inr (refl, refl),
      (
        inr (refl, refl),
        (
          inr (refl, refl),
          (
            inr (refl, refl),
            (
              inr (refl, refl),
              (
                inr (refl, refl),
                (
                  inr (refl, refl),
                  (
                    inr (refl, refl),
                    (
                      inr (refl, refl),
                      (
                        inr (refl, refl),
                        (
                          inr (refl, refl),
                          (
                            inr (refl, refl),
                            (
                              inr (refl, refl),
                              (
                                inr (refl, refl),
                                (
                                  inr (refl, refl),
                                  (inr (refl, refl), (inr (refl, refl), (inr (refl, refl), tt))),
                                ),
                              ),
                            ),
                          ),
                        ),
                      ),
                    ),
                  ),
                ),
              ),
            ),
          ),
        ),
      ),
    ),
  ),
)

apply_stored_callbacks-stuck_example : apply_stored_callbacks setup 100 [] clogged ≡ (0, clogged)
apply_stored_callbacks-stuck_example =
    apply_stored_callbacks-stuck setup 100 [] clogged clogged-Waits

abbrev done : IncomingResult
done = record { applied = true; duplicate = false; reason = []; item = some waiting }

done-concludes : should_conclude_callback done ≡ true
unfolding should_conclude_callback
done-concludes = refl

conclude_callback-reopened_example :
    All (IsBack 9 21) (reopen_callbacks 9 (conclude_callback 5 21 done clogged)).callbacks
conclude_callback-reopened_example =
    conclude_callback-reopened 5 9 21 done clogged refl done-concludes
