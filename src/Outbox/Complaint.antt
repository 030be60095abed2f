-- ===== src/Outbox/Complaint.antt =====
-- internal/outbox/worker.go: what a failed message shows of the provider's last answer.
use mathlib.Core.Option
use sms.Prelude.{
  ℕ, zero, suc, ◌+◌, ◌-◌, ◌/◌, ◌%◌, Bool, true, false, ◌&&◌, not, Option, none, some, [], ◌∷◌, ◌++◌,
  length, take, drop, ltb, leb, ◌==◌, if◌then◌else◌,
}
use sms.Prelude.Text.{Text, codes, text_eq, trim_space}
use sms.Store.Types.{Uuid, Db}
use sms.Store.Outbox.{get_latest_send_attempt}
use sms.Outbox.Match.{is_blank}
use sms.Outbox.World.{deref}

-- strings.HasPrefix
unfoldable pub has_prefix : Text → Text → Bool
has_prefix s p = text_eq (take (length p) s) p

unfoldable pub trim_prefix : Text → Text → Text
trim_prefix s p = if has_prefix s p then drop (length p) s else s

unfoldable pub trim_suffix : Text → Text → Text
trim_suffix s p =
    if leb (length p) (length s) && text_eq (drop (length s - length p) s) p
    then take (length s - length p) s
    else s

-- strings.Index in runes; `none` is -1.
unfoldable pub index : Text → Text → Option ℕ
index [] p = if is_blank p then some 0 else none
index (r ∷ s) p =
    let rest = index s p in if has_prefix (r ∷ s) p then some 0 else Option.map (λ i. i + 1) rest

unfoldable pub has_text : Text → Text → Bool
has_text s p = elim (index s p) [ none ↦ false | some i ↦ true ]

-- Decimal digits, as many as the fuel: an HTTP status has three.
unfoldable pub digits : ℕ → ℕ → Text
digits zero n = []
digits (suc fuel) n =
    let front = digits fuel (n / 10) in
    if ltb n 10 then (48 + n) ∷ [] else front ++ (48 + n % 10) ∷ []

-- `decode` is json.Unmarshal into message and request_id.
module _ (decode : Text → Option (Text × Text)) where
  -- The message and the request id.
  unfoldable pub extract_provider_complaint : Text → Text × Text
  extract_provider_complaint raw =
      let plain = if has_prefix raw (codes "{") then ([], []) else (raw, []) in
      if is_blank raw then ([], []) else elim (decode raw) [
        | none ↦ plain
        | some e ↦ if is_blank e.0 && is_blank e.1 then plain else e
      ]

  abbrev marker : Text
  marker = codes " (request_id="

  -- A request id that stands in the message: the message without it, and the id.
  unfoldable pub split_request_id : Text → Text → Text × Text
  split_request_id msg req_id = elim (index msg marker) [
    | none ↦ (msg, req_id)
    | some i ↦ if i == 0 then (msg, req_id) else (
      take i msg,
      if is_blank req_id then trim_suffix (drop (i + length marker) msg) (codes ")") else req_id,
    )
  ]

  unfoldable pub complaint : ℕ → Text → Text → Text
  complaint status msg req_id =
      let out =
        (if ltb 0 status
          then codes "runexis http " ++ (digits 20 status ++ (codes ": " ++ msg))
          else codes "runexis: " ++ msg) in
      if not (is_blank req_id) && not (has_text out req_id)
      then out ++ (marker ++ (req_id ++ codes ")"))
      else out

  abbrev status_of : Option ℕ → ℕ
  status_of none = 0
  status_of (some n) = n

  unfoldable pub provider_status_from_attempt : Option ℕ → Option Text → Text
  provider_status_from_attempt http_status body =
      let (msg0, req0) = extract_provider_complaint (trim_space (deref body)) in
      if is_blank msg0
      then []
      else (let (msg, req_id) = split_request_id (trim_prefix msg0 (codes "runexis: ")) req0 in
          complaint (status_of http_status) msg req_id)

  unfoldable pub provider_status_for_job : Uuid → Text → Db → Text
  provider_status_for_job job fallback db = elim (get_latest_send_attempt job db.send_attempts) [
    | none ↦ fallback
    | some a ↦
        (let s = provider_status_from_attempt a.http_status a.response_body in
          if is_blank s then fallback else s)
  ]
