-- ===== src/Lookup/Stored.antt =====
-- internal/lookup/callback.go: the stored callbacks are applied and marked as processed
-- (applyStoredCallbacks, ConcludeCallback, DrainCallbacks).
use sms.Prelude.{
  ℕ, suc, ◌+◌, ◌&&◌, ◌||◌, not, Bool, true, false, Option, none, some, List, [], ◌∷◌, inl, any, leb,
  ◌==◌, if◌then◌else◌,
}
use sms.Prelude.Text.{Text, codes, text_eq}
use sms.Store.Types.{LookupItem}
use sms.Lookup.Apply.{is_blank, deref}
use sms.Lookup.Callbacks.{
  ProviderLookupCallback, ProviderLookupRequest, RawPayload, Conclusion,
  list_unprocessed_provider_lookup_callbacks, mark_provider_lookup_callback_processed,
  reopen_unapplied_lookup_callbacks,
}
use sms.Lookup.World.{LookupWorld, Outside, Setup, other_error}
use sms.Lookup.Ending.{finalize_ready}
use sms.Lookup.Incoming.{
  IncomingCallback, IncomingResult, callback_not_found_ttl, callback_phone_digits, apply_incoming,
}

-- A stored callback calls no provider.
abbrev pub no_call : Outside
no_call = record {
  in_time = false;
  is_limited = false;
  submitted = inl (other_error []);
  fetched = inl (other_error []);
  can_enrich = false;
  in_time_after = false;
  enriched = inl (other_error []);
}

unfoldable pub should_conclude_callback : IncomingResult → Bool
should_conclude_callback res = res.applied || res.duplicate

-- `age` is now - created_at, and may be negative.
unfoldable pub should_mark_stored_callback : (now created : ℕ) → IncomingResult → Bool
should_mark_stored_callback now created res =
    if should_conclude_callback res
    then true
    else if text_eq res.reason (codes "ambiguous")
    then false
    else if any (text_eq res.reason) (
        codes "not_found"
        ∷ codes "item_not_found"
        ∷ []
        ∷ codes "phone_mismatch"
        ∷ codes "lifecycle_unmapped"
        ∷ [])
    then leb (created + callback_not_found_ttl) now
    else false

-- The phone of the result, or else of the payload.
abbrev pub stored_phone : Text → Option RawPayload → Text
stored_phone phone none = phone
stored_phone phone (some raw) = if is_blank phone then callback_phone_digits raw.phone else phone

abbrev pub stored_id : Text → Option RawPayload → Text
stored_id id none = id
stored_id id (some raw) = if is_blank id then raw.id else id

unfoldable pub incoming_from_stored : ProviderLookupCallback → IncomingCallback
incoming_from_stored row = record {
  provider_message_id = stored_id (deref row.provider_message_id) row.raw_payload;
  phone_digits =
      stored_phone (callback_phone_digits row.normalized_result.phone_e164) row.raw_payload;
  normalized = row.normalized_result;
  skip_enrich = true;
}

-- The parameters of MarkProviderLookupCallbackProcessed; an item with the id 0 is the zero item.
abbrev pub of_item : Option Text → Option LookupItem → Conclusion
of_item e none = record { process_error = e; job_item_id = none; client_id = none }
of_item e (some i) =
    if i.id == 0
    then record { process_error = e; job_item_id = none; client_id = none }
    else record { process_error = e; job_item_id = some i.id; client_id = some i.client_id }

unfoldable pub conclusion_of : IncomingResult → Conclusion
conclusion_of res =
    of_item
      (if not (is_blank res.reason) && not res.applied && not res.duplicate
        then some res.reason
        else none)
      res.item

unfoldable pub conclude_callback : ℕ → ℕ → IncomingResult → LookupWorld → LookupWorld
conclude_callback now id res w = if id == 0 then w else record w {
  callbacks = mark_provider_lookup_callback_processed now id (conclusion_of res) w.callbacks;
}

unfoldable pub mark_stored :
    ℕ → ProviderLookupCallback → IncomingResult × LookupWorld → Bool × LookupWorld
mark_stored now row (res, w) =
    if not (should_mark_stored_callback now row.created_at res) then (false, w) else (
      should_conclude_callback res,
      record w {
        callbacks =
            mark_provider_lookup_callback_processed now row.id (conclusion_of res) w.callbacks;
      },
    )

unfoldable pub apply_stored_callback :
    Setup
    → ℕ
    → List ProviderLookupRequest
    → ProviderLookupCallback
    → LookupWorld
    → Bool × LookupWorld
apply_stored_callback setup now requests row w =
    mark_stored now row (apply_incoming setup now no_call requests (incoming_from_stored row) w)

-- How many were applied.
unfoldable pub apply_rows :
    Setup
    → ℕ
    → List ProviderLookupRequest
    → List ProviderLookupCallback
    → LookupWorld
    → ℕ × LookupWorld
apply_rows setup now requests [] w = (0, w)
apply_rows setup now requests (row ∷ rows) w =
    let (took, after) = apply_stored_callback setup now requests row w in
    let (n, done) = apply_rows setup now requests rows after in (if took then suc n else n, done)

unfoldable pub apply_stored_callbacks :
    Setup → ℕ → List ProviderLookupRequest → LookupWorld → ℕ × LookupWorld
apply_stored_callbacks setup now requests w =
    apply_rows setup now requests (list_unprocessed_provider_lookup_callbacks 20 w.callbacks) w

-- DrainCallbacks on the state.
unfoldable pub drain_callbacks : Setup → ℕ → List ProviderLookupRequest → LookupWorld → LookupWorld
drain_callbacks setup now requests w =
    finalize_ready setup now (apply_stored_callbacks setup now requests w).1

-- The first statement of reconcile: the callbacks of a day.
unfoldable pub reopen_callbacks : ℕ → LookupWorld → LookupWorld
reopen_callbacks now w = record w {
  callbacks = reopen_unapplied_lookup_callbacks now 86_400_000 w.callbacks;
}
