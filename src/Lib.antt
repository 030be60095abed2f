-- ===== src/Lib.antt =====
-- A model of the service's own core: the money that clients pay with, what a message or a lookup
-- costs, the phone numbers, the states of lookups, the queue of messages, and the events that clients
-- are told of.
--
-- The parts, and where they stand:
--   Prelude    tests, lists, integers and texts that the other modules share;
--   Store      internal/db/sqlc: the rows, and the statements that the other parts run;
--   Billing    internal/billing: wallets, holds, their settlement, tariffs, the price of a text;
--   Msisdn     internal/msisdn/msisdn.go: senders and destinations;
--   Lookup     internal/lookup/state.go, phone.go, apply.go, worker.go and callback.go: items, jobs, their
--              phone lists, the merge of results, the worker that has the items checked, and the
--              provider's callbacks;
--   Messaging  internal/messaging/service.go: a client's message is priced, stored and queued;
--   Outbox     internal/outbox/worker.go and internal/messaging/match.go: the worker that sends what is
--              queued;
--   Webhooks   internal/webhooks/deliver.go, service.go, backoff.go and events.go: events for the
--              clients' endpoints.
--
-- Billing.Money is ledger.go, money.go and the two functions on a hold's remainder of lookup.go:
-- apply_hold is applyHold, remaining_on_hold is RemainingOnHold. Billing.Rounding is an amount before
-- and after it is stored. Billing.Post is what the methods of
-- service.go and lookup_billing.go share. Billing.Sms is ReserveForMessage, settle behind
-- CaptureForMessage and ReleaseForMessage, and ReapOpenHolds; Billing.Credit is TopUp, Adjust and
-- credit; Billing.Lookup is ReserveForLookupJob, settleLookupItem and ReleaseLookupJobRemainder with
-- their retry loops; Billing.Reaper is ReapOpenLookupHolds; Billing.Tariffs is tariffs.go with
-- EstimateLookup and AssertLookupAssignment; Billing.Pdu is pdu.go. A message or an item is settled
-- against the hold that its reservation has placed, and the remainder of a lookup job is released when
-- no item can claim it. Billing.Ledger holds the invariant of the tables and the proofs that every
-- operation keeps it.
--
-- Outbox.World is what the worker reads and keeps, Outbox.Parking and Outbox.Accepting are its writes
-- on jobs and messages (park, complete, touchLock; markAccepted, applyStatistic, accept,
-- acceptFromStat), Outbox.Complaint the text of a failure, Outbox.Worker process with handleUncertain
-- and send, Outbox.Tick Tick with reconcile and backfillInbox, Outbox.Match MatchStatistic; the
-- statements are Store.Outbox and Store.Messages. The worker captures or releases the hold of a message
-- through Billing.Sms. Outbox.Lifecycle is the abstract view: the life of a queued job.
--
-- Lookup.Items, Lookup.Claims and Lookup.Counters are the statements on items and jobs; Lookup.World
-- is the state of the worker with what the provider answers, Lookup.Ending onItemTerminal, failItem
-- and FinalizeJob, Lookup.Update ApplyProviderUpdate with enrichHLR and patchItem, Lookup.Worker
-- submit, poll and reconcile, Lookup.Enrich enrichTerminalHLR and Tick. Lookup.Callbacks is the table
-- of the stored callbacks and the searches for an item, Lookup.Incoming ApplyIncoming, Lookup.Stored
-- applyStoredCallbacks, ConcludeCallback and DrainCallbacks, Lookup.Receiving what
-- internal/http/smsc/handler.go, HandleCallback of internal/smsc/provider.go and SaveCallback of
-- persist.go do with a callback, Lookup.Calls the loops of internal/app/app.go and the handler. An
-- item that ends is settled through Billing.Lookup and told of through Webhooks.Deliver. Lookup.Closed
-- and its kin carry a property from the single writes to any sequence of calls.
--
-- Messaging is enqueue and the reads of internal/messaging/service.go; its statements are Store.Queue. It
-- prices a message by Billing.Tariffs and holds for it by Billing.Sms; the job that it leaves is what
-- the outbox claims.
--
-- Webhooks.Deliver is enqueue, DeliverDue, deliverOne and failAttempt on tables of its own (Hooks);
-- Webhooks.Manage is Create, Patch, RotateSecret and Delete of service.go; Webhooks.Tables holds their
-- rows and statements, Webhooks.Schedule the delays and the events.
--
-- How the code is read:
--   a table is the list of its rows, newest first, and ORDER BY created_at the order of that list; a
--   statement is a function of the tables. A transaction is a function from the database to a result;
--   an error is the rollback. Transactions run one after the other: what two of them do to each other
--   while both are open is not modelled. Database failures other than a missing row and the unique
--   indexes on (client_id, idempotency_key), provider_sms_id, provider_message_id and dedupe_key do not
--   occur.
--   A uuid is a number and 0 is uuid.Nil; next_id of the database is what gen_random_uuid gives next.
--   Money is a whole number of millionths, which is what the numeric columns hold. An amount that is
--   given to TopUp or Adjust may be finer (Billing.Rounding.Decimal); the code computes with it
--   exactly, and to_numeric is what PostgreSQL stores, rounding half away from zero. That a balance fits
--   the eighteen digits of its column is taken for granted.
--   A text is the list of its runes, and byte_len is its length in UTF-8, where the code takes len.
--   An idempotency key is data: a prefix with its arguments. A batch limit below 1 is 50, and a number
--   that the code keeps in an int is a natural number where it counts; compute_progress writes the
--   wrap-around of int32 out. A service has a logger.
--   The retry loops have the code's five rounds; chunk_from has as many rounds as items, and each
--   takes at least one.
--   A map of extras is the function from its keys, and what extrasFromItem reads from an item's JSON is
--   a field of the item.
--   decimal.NewFromString is a parameter of top_up and adjust, and time.Now() of the tariffs.
--
--   The worker's name is a number, its clock stands still during a round, and delays are milliseconds.
--   What the provider, the rate limiter and the settings answer is data of the round (Outside, Round);
--   the bucket that a 429 drains is the limiter's. json.Unmarshal of a provider's complaint is the
--   parameter `decode`. backfill_pages has the code's twenty rounds.
--
--   The lookup worker's clock stands still during a round too; what its deadlines let happen is data
--   (Budget, Outside), and so are the limiter and the provider (IoError is what the worker reads of an
--   error). Its settings can be read, it has billing and webhooks, instants are milliseconds. Of
--   normalized_result the extras are kept. The requests that are recorded when callbacks are looked at
--   are data (Budget), and so is what MapResponse, VerifyCallbackSignature and CallbackPhoneRaw find
--   in a callback. The rounds are those that find no CSV file to parse: parsePendingCSV,
--   which adds items and holds for them, is left out. The calls of Lookup.Calls run one after the other.
--
--   Whether a transaction goes on after a statement that was refused is a parameter of Messaging
--   (Service.survives): PostgreSQL's does not. The policy on international messages is one too.
--
--   What comes of the request of a delivery is data (Answer): the secret cannot be decrypted, no answer,
--   or the status of one. A payload, its signature, the text of an error, URLs and secrets are left
--   out; that a URL is one is data of the request.
--
-- Not modelled: metadata and descriptions of rows, the rendering of errors and money, since no
-- decision rests on them. The creation of lookup jobs, whose phone list, price and reservation are
-- modelled apart, and their import from CSV files, which is mostly I/O. The HTTP clients of the
-- providers with the mapping of their codes, whose results are data here. Campaigns, the inventory
-- of numbers and the events of the SMS provider (internal/ingress), which work through messaging,
-- billing and their tables. Accounts, sessions, API keys, rate limits and secrets, which rest on
-- libraries, Redis and PostgreSQL; settings, HTTP handlers and the application's wiring around these
-- parts.
pub mod Prelude
pub mod Store
pub mod Billing
pub mod Msisdn
pub mod Lookup
pub mod Messaging
pub mod Outbox
pub mod Webhooks
