-- ===== src/Lookup/Callbacks.antt =====
-- internal/db/sqlc/lookup.sql.go: the stored callbacks of the provider, and the searches for the item
-- that a callback is about.
use sms.Prelude.{
  ℕ, ◌+◌, ◌-◌, ◌&&◌, ◌||◌, not, Bool, true, false, Option, none, some, List, [], ◌∷◌, ◌++◌, any,
  map, take, drop, length, filter_by, find_first, ltb, leb, ◌==◌, if◌then◌else◌,
}
use sms.Prelude.Text.{Text, codes, text_eq}
use sms.Store.Types.{Uuid, LookupItem, item_queued, item_reserved, item_pending}
use sms.Store.Errors.{Result, ok, err, unique_violation}
use sms.Store.Rows.{is_null}
use sms.Store.Messages.{coalesce, holds_text}
use sms.Lookup.State.{status_eq}
use sms.Lookup.Apply.{NormalizedResult, is_blank}
use sms.Lookup.Items.{sort_items}

-- What the code reads from raw_payload when it is an object: smsc.CallbackPhoneRaw of it, and its "id"
-- as a string.
pub record RawPayload : Type 0 where
  pub phone : Text
  pub id : Text

-- `normalized_result` is the value that the stored JSON decodes to, the zero value where it does not.
pub record ProviderLookupCallback : Type 0 where
  pub id : Uuid
  pub client_id : Option Uuid
  pub job_item_id : Option Uuid
  pub provider_code : Text
  pub provider_message_id : Option Text
  pub raw_payload : Option RawPayload
  pub normalized_result : NormalizedResult
  pub dedupe_key : Option Text
  pub signature_valid : Option Bool
  pub processed_at : Option ℕ
  pub process_error : Option Text
  pub created_at : ℕ

-- A request that was recorded for an item; `payload_id` is request_payload->>'id'.
pub record ProviderLookupRequest : Type 0 where
  pub job_item_id : Option Uuid
  pub is_send : Bool
  pub provider_message_id : Option Text
  pub payload_id : Option Text
  pub created_at : ℕ

-- status IN ('queued', 'reserved', 'pending')
abbrev pub is_open_status : LookupItem → Bool
is_open_status i = any (status_eq i.status) (item_queued ∷ item_reserved ∷ item_pending ∷ [])

-- provider_message_id IS NULL OR provider_message_id = '' OR provider_message_id = $3
abbrev pub may_be_sent_as : Text → LookupItem → Bool
may_be_sent_as pid i = elim i.provider_message_id [
  | none ↦ true
  | some own ↦ is_blank own || text_eq own pid
]

-- right(s, 10)
abbrev pub right_ten : Text → Text
right_ten s = drop (length s - 10) s

-- `created_after` is now - ttl: instants are milliseconds.
abbrev pub is_recent : (now ttl created : ℕ) → Bool
is_recent now ttl created = leb now (created + ttl)

unfoldable pub list_lookup_items_by_provider_message :
    Text → Text → List LookupItem → List LookupItem
list_lookup_items_by_provider_message code pid is =
    sort_items (λ i. i.created_at)
      (filter_by
        (λ (i : LookupItem). text_eq i.provider_code code && holds_text i.provider_message_id pid)
        is)

abbrev pub is_send_of : (now ttl : ℕ) → Text → ProviderLookupRequest → Bool
is_send_of now ttl pid r =
    r.is_send
    && is_recent now ttl r.created_at
    && (holds_text r.provider_message_id pid || holds_text r.payload_id pid)

abbrev pub is_about : ProviderLookupRequest → LookupItem → Bool
is_about r i = elim r.job_item_id [ none ↦ false | some id ↦ i.id == id ]

-- The join: an item stands once for each request of it.
unfoldable pub join_requests : List ProviderLookupRequest → List LookupItem → List LookupItem
join_requests [] is = []
join_requests (r ∷ rs) is =
    filter_by (λ i. is_about r i && is_open_status i) is ++ join_requests rs is

unfoldable pub list_open_lookup_items_for_callback_send_id :
    (now ttl : ℕ) → Text → List ProviderLookupRequest → List LookupItem → List LookupItem
list_open_lookup_items_for_callback_send_id now ttl pid rs is =
    sort_items (λ i. i.created_at) (join_requests (filter_by (is_send_of now ttl pid) rs) is)

abbrev pub has_phone : (now ttl : ℕ) → Text → Text → LookupItem → Bool
has_phone now ttl digits pid i =
    text_eq i.phone_digits digits
    && is_open_status i
    && is_recent now ttl i.created_at
    && may_be_sent_as pid i

unfoldable pub list_open_lookup_items_for_callback_phone :
    (now ttl : ℕ) → Text → Text → List LookupItem → List LookupItem
list_open_lookup_items_for_callback_phone now ttl digits pid is =
    sort_items (λ i. i.created_at) (filter_by (has_phone now ttl digits pid) is)

abbrev pub has_phone_tail : (now ttl : ℕ) → Text → Text → LookupItem → Bool
has_phone_tail now ttl tail pid i =
    text_eq (right_ten i.phone_digits) tail
    && is_open_status i
    && is_recent now ttl i.created_at
    && may_be_sent_as pid i

unfoldable pub list_open_lookup_items_for_callback_phone_tail :
    (now ttl : ℕ) → Text → Text → List LookupItem → List LookupItem
list_open_lookup_items_for_callback_phone_tail now ttl tail pid is =
    sort_items (λ i. i.created_at) (filter_by (has_phone_tail now ttl tail pid) is)

-- The unique index on (provider_code, dedupe_key).
abbrev pub has_dedupe_key : Text → Text → ProviderLookupCallback → Bool
has_dedupe_key code key c = text_eq c.provider_code code && holds_text c.dedupe_key key

unfoldable pub get_provider_lookup_callback_by_dedupe :
    Text → Text → List ProviderLookupCallback → Option ProviderLookupCallback
get_provider_lookup_callback_by_dedupe code key = find_first (has_dedupe_key code key)

abbrev pub dedupe_key_taken : ProviderLookupCallback → List ProviderLookupCallback → Bool
dedupe_key_taken c cs = elim c.dedupe_key [
  | none ↦ false
  | some key ↦ any (has_dedupe_key c.provider_code key) cs
]

unfoldable pub insert_provider_lookup_callback :
    ProviderLookupCallback → List ProviderLookupCallback → Result (List ProviderLookupCallback)
insert_provider_lookup_callback c cs =
    if dedupe_key_taken c cs then err unique_violation else ok (c ∷ cs)

-- ORDER BY created_at, id
abbrev pub callback_before : ProviderLookupCallback → ProviderLookupCallback → Bool
callback_before c d =
    ltb c.created_at d.created_at || (c.created_at == d.created_at && leb c.id d.id)

unfoldable pub insert_callback :
    ProviderLookupCallback → List ProviderLookupCallback → List ProviderLookupCallback
insert_callback c [] = c ∷ []
insert_callback c (d ∷ ds) = if callback_before c d then c ∷ d ∷ ds else d ∷ insert_callback c ds

unfoldable pub sort_callbacks : List ProviderLookupCallback → List ProviderLookupCallback
sort_callbacks [] = []
sort_callbacks (c ∷ cs) = insert_callback c (sort_callbacks cs)

unfoldable pub list_unprocessed_provider_lookup_callbacks :
    ℕ → List ProviderLookupCallback → List ProviderLookupCallback
list_unprocessed_provider_lookup_callbacks limit cs =
    take limit
      (sort_callbacks (filter_by (λ (c : ProviderLookupCallback). is_null c.processed_at) cs))

-- MarkProviderLookupCallbackProcessedParams, without the id.
pub record Conclusion : Type 0 where
  pub process_error : Option Text
  pub job_item_id : Option Uuid
  pub client_id : Option Uuid

abbrev pub concluded : ℕ → Conclusion → ProviderLookupCallback → ProviderLookupCallback
concluded now k c = record c {
  processed_at = some now;
  process_error = k.process_error;
  job_item_id = coalesce k.job_item_id c.job_item_id;
  client_id = coalesce k.client_id c.client_id;
}

unfoldable pub mark_provider_lookup_callback_processed :
    ℕ → Uuid → Conclusion → List ProviderLookupCallback → List ProviderLookupCallback
mark_provider_lookup_callback_processed now id k =
    map λ (c : ProviderLookupCallback). if c.id == id then concluded now k c else c

-- COALESCE(process_error, '') IN (…)
abbrev pub is_reopened_error : Option Text → Bool
is_reopened_error none = true
is_reopened_error (some e) =
    is_blank e
    || text_eq e (codes "not_found")
    || text_eq e (codes "item_not_found")
    || text_eq e (codes "ambiguous")
    || text_eq e (codes "phone_mismatch")

abbrev pub is_reopened : (now ttl : ℕ) → ProviderLookupCallback → Bool
is_reopened now ttl c =
    not (is_null c.processed_at)
    && is_recent now ttl c.created_at
    && is_reopened_error c.process_error

abbrev pub reopened : ProviderLookupCallback → ProviderLookupCallback
reopened c = record c { processed_at = none; process_error = none }

unfoldable pub reopen_unapplied_lookup_callbacks :
    (now ttl : ℕ) → List ProviderLookupCallback → List ProviderLookupCallback
reopen_unapplied_lookup_callbacks now ttl = map λ c. if is_reopened now ttl c then reopened c else c
