-- ===== src/Lookup/Claims.antt =====
-- internal/db/sqlc/lookup.sql.go: how the worker claims items, the same for each of three statuses:
-- the clients that have waited longest, and of each the items that have.
use sms.Prelude.{
  ℕ, ◌+◌, Bool, true, false, ◌&&◌, not, Option, none, some, List, [], ◌∷◌, ◌++◌, any, map, take,
  filter_by, leb, ◌==◌, if◌then◌else◌,
}
use sms.Store.Types.{Uuid, Client, active, LookupItem, item_queued, item_reserved, item_pending, Db}
use sms.Store.Rows.{get_client_by_id}
use sms.Lookup.State.{status_eq}
use sms.Lookup.Items.{sort_items}

abbrev pub is_active_client : Option Client → Bool
is_active_client none = false
is_active_client (some c) = elim c.status [ active ↦ true | _ ↦ false ]

-- The items of active clients that may be claimed, the longest waiting first.
unfoldable pub candidates : (LookupItem → Bool) → (LookupItem → ℕ) → Db → List LookupItem
candidates ready at db = sort_items at (
    filter_by
      (λ (i : LookupItem). is_active_client (get_client_by_id i.client_id db.clients) && ready i)
      db.lookup_items)

-- GROUP BY client_id ORDER BY MIN(…): each client where its first item stands.
unfoldable pub clients_of : List LookupItem → List Uuid
clients_of [] = []
clients_of (i ∷ is) = i.client_id ∷ filter_by (λ c. not (c == i.client_id)) (clients_of is)

-- CROSS JOIN LATERAL … LIMIT $2
unfoldable pub share_of : ℕ → List LookupItem → List Uuid → List LookupItem
share_of per_client items [] = []
share_of per_client items (c ∷ cs) =
    take per_client (filter_by (λ (i : LookupItem). i.client_id == c) items)
    ++ share_of per_client items cs

abbrev pub is_claimed : List LookupItem → LookupItem → Bool
is_claimed claimed i = any (λ (j : LookupItem). j.id == i.id) claimed

unfoldable pub claim_fair :
    (LookupItem → Bool)
    → (LookupItem → ℕ)
    → (LookupItem → LookupItem)
    → ℕ
    → ℕ
    → Db
    → List LookupItem × Db
claim_fair ready at set client_limit per_client db =
    let items = candidates ready at db in
    let claimed = share_of per_client items (take client_limit (clients_of items)) in
    (
      map set claimed,
      record db {
        lookup_items = map (λ i. if is_claimed claimed i then set i else i) db.lookup_items;
      },
    )

abbrev pub is_due_poll : ℕ → LookupItem → Bool
is_due_poll now i = elim i.next_poll_at [ none ↦ false | some t ↦ leb t now ]

abbrev pub poll_time : LookupItem → ℕ
poll_time i = elim i.next_poll_at [ none ↦ 0 | some t ↦ t ]

abbrev pub reserve_row : ℕ → LookupItem → LookupItem
reserve_row now i = record i { status = item_reserved; updated_at = now }

abbrev pub touch_row : ℕ → LookupItem → LookupItem
touch_row now i = record i { updated_at = now }

-- next_poll_at = now() + 120 seconds; instants are milliseconds.
abbrev pub lease_row : ℕ → LookupItem → LookupItem
lease_row now i = record i { next_poll_at = some (now + 120_000); updated_at = now }

unfoldable pub claim_queued_lookup_items_fair : ℕ → ℕ → ℕ → Db → List LookupItem × Db
claim_queued_lookup_items_fair now =
    claim_fair (λ i. status_eq i.status item_queued) (λ i. i.created_at) (reserve_row now)

unfoldable pub claim_reserved_lookup_items_fair : ℕ → ℕ → ℕ → Db → List LookupItem × Db
claim_reserved_lookup_items_fair now =
    claim_fair (λ i. status_eq i.status item_reserved && leb (i.updated_at + 20_000) now)
      (λ i. i.updated_at) (touch_row now)

unfoldable pub claim_pending_lookup_items_fair : ℕ → ℕ → ℕ → Db → List LookupItem × Db
claim_pending_lookup_items_fair now =
    claim_fair (λ i. status_eq i.status item_pending && is_due_poll now i) poll_time (lease_row now)
