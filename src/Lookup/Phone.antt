-- ===== src/Lookup/Phone.antt =====
-- internal/lookup/phone.go: phones in +E.164, without duplicates, and the gate of Russian mobiles.
use sms.Prelude.{
  ℕ, zero, suc, ◌+◌, Bool, true, false, ◌&&◌, ◌||◌, not, List, [], ◌∷◌, ◌++◌, any, length, take,
  drop, leb, ltb, ◌==◌, if◌then◌else◌,
}
use sms.Prelude.Text.{Text, byte_len, text_eq, trim_space}
use sms.Msisdn.{digits_only, head_is, tail_of, all_ascii_digits}

abbrev pub is_empty {ℓ} : {A : Type ℓ} → List A → Bool
is_empty [] = true
is_empty (x ∷ xs) = false

-- Eleven bytes of digits that begin with 79.
unfoldable pub is_ru_mobile_79 : Text → Bool
is_ru_mobile_79 e164 =
    let digits = digits_only e164 in
    byte_len digits == 11 && (head_is b'7' digits && head_is b'9' (tail_of digits))

unfoldable pub count_non_ru_mobile_79 : List Text → ℕ
count_non_ru_mobile_79 [] = 0
count_non_ru_mobile_79 (p ∷ phones) =
    (if not (is_ru_mobile_79 p) then 1 else 0) + count_non_ru_mobile_79 phones

-- A plus sign is kept at the very front only.
unfoldable pub strip_phone_noise : Text → Text
strip_phone_noise [] = []
strip_phone_noise (r ∷ s) = if r == b'+' then r ∷ digits_only s else digits_only (r ∷ s)

unfoldable pub valid_e164 : Text → Bool
valid_e164 e164 =
    head_is b'+' e164
    && (let d = tail_of e164 in
        leb 8 (byte_len d) && leb (byte_len d) 15 && not (head_is b'0' d) && all_ascii_digits d)

-- The message of the error.
pub data PhoneError : Type 0 where
  phone_number_is_empty invalid_phone_number : PhoneError

pub data Parsed : Type 0 where
  phone : Text → Parsed
  refused : PhoneError → Parsed

-- National forms become 7….
unfoldable pub national_digits : Bool → Text → Text
national_digits has_plus digits =
    if has_plus
    then digits
    else if byte_len digits == 11 && head_is b'8' digits
    then b'7' ∷ tail_of digits
    else if byte_len digits == 10 && head_is b'9' digits
    then b'7' ∷ digits
    else digits

unfoldable pub e164_of_compact : Text → Parsed
e164_of_compact compact =
    let digits = digits_only compact in
    if is_empty digits
    then refused invalid_phone_number
    else (let e164 = b'+' ∷ national_digits (head_is b'+' compact) digits in
        if valid_e164 e164 then phone e164 else refused invalid_phone_number)

unfoldable pub normalize_phone_e164 : Text → Parsed
normalize_phone_e164 input =
    let trimmed = trim_space input in
    if is_empty trimmed
    then refused phone_number_is_empty
    else e164_of_compact (strip_phone_noise trimmed)

pub record NormalizeResult : Type 0 where
  pub phones : List Text
  pub deduplicated_count : ℕ
  pub invalid : List (Text × PhoneError)
  pub rejected : List Text
  pub has_non_79 : Bool

-- A Go map used as a set.
unfoldable pub contains : List Text → Text → Bool
contains seen token = any (λ t. text_eq t token) seen

-- The result with the two sets of what was seen.
pub record Pass : Type 0 where
  pub out : NormalizeResult
  pub seen_e164 : List Text
  pub seen_orig : List Text

unfoldable pub reject_token : Text → Pass → Pass
reject_token token p = if is_empty token || contains p.seen_orig token then p else record p {
  out = record (p.out) { rejected = p.out.rejected ++ token ∷ [] };
  seen_orig = token ∷ p.seen_orig;
}

unfoldable pub mark_non_79 : Text → Text → Pass → Pass
mark_non_79 e164 trimmed p =
    if not (is_ru_mobile_79 e164)
    then reject_token trimmed (record p { out = record (p.out) { has_non_79 = true } })
    else p

unfoldable pub add_phone : Text → Pass → Pass
add_phone e164 p =
    if contains p.seen_e164 e164
    then record p { out = record (p.out) { deduplicated_count = p.out.deduplicated_count + 1 } }
    else record p {
      out = record (p.out) { phones = p.out.phones ++ e164 ∷ [] };
      seen_e164 = e164 ∷ p.seen_e164;
    }

unfoldable pub take_parsed : Text → Parsed → Pass → Pass
take_parsed input (refused reason) p =
    reject_token (trim_space input)
      (record p { out = record (p.out) { invalid = p.out.invalid ++ (input, reason) ∷ [] } })
take_parsed input (phone e164) p = add_phone e164 (mark_non_79 e164 (trim_space input) p)

unfoldable pub take_inputs : List Text → Pass → Pass
take_inputs [] p = p
take_inputs (input ∷ inputs) p =
    take_inputs inputs (take_parsed input (normalize_phone_e164 input) p)

unfoldable pub start : Pass
start = record {
  out = record {
    phones = [];
    deduplicated_count = 0;
    invalid = [];
    rejected = [];
    has_non_79 = false;
  };
  seen_e164 = [];
  seen_orig = [];
}

unfoldable pub normalize_and_deduplicate : List Text → NormalizeResult
unfolding start
normalize_and_deduplicate inputs = (take_inputs inputs start).out

pub data PrepareError : Type 0 where
  phones_empty no_valid_phones too_many_phones single_wants_one : PrepareError
  phones_rejected : (only_ru_mobile : Bool) → List Text → PrepareError

pub data Prepared : Type 0 where
  prepared : List Text → ℕ → Prepared
  not_prepared : PrepareError → Prepared

-- PreparePhones after its empty test; `is_single` is source == "single", and a cap of 0 or less
-- is no cap.
unfoldable pub prepare_normalized : Bool → ℕ → NormalizeResult → Prepared
prepare_normalized is_single max_phones norm =
    if not (is_empty norm.invalid) || norm.has_non_79
    then not_prepared (phones_rejected norm.has_non_79 norm.rejected)
    else if is_empty norm.phones
    then not_prepared no_valid_phones
    else if ltb 0 max_phones && ltb max_phones (length norm.phones)
    then not_prepared too_many_phones
    else if is_single && not (length norm.phones == 1)
    then not_prepared single_wants_one
    else prepared norm.phones norm.deduplicated_count

unfoldable pub prepare_phones : List Text → Bool → ℕ → Prepared
prepare_phones inputs is_single max_phones =
    if is_empty inputs
    then not_prepared phones_empty
    else prepare_normalized is_single max_phones (normalize_and_deduplicate inputs)

-- The loop of Chunk: `fuel` bounds the rounds.
unfoldable pub chunk_from {ℓ} : {A : Type ℓ} → ℕ → ℕ → List A → List (List A)
chunk_from zero size items = []
chunk_from (suc fuel) size [] = []
chunk_from (suc fuel) size (x ∷ xs) = take size (x ∷ xs) ∷ chunk_from fuel size (drop size (x ∷ xs))

-- A size of 0 or less gives nil. Each round takes an item, so as many rounds as items are enough.
unfoldable pub chunk {ℓ} : {A : Type ℓ} → List A → ℕ → List (List A)
unfolding chunk_from
chunk items size = if size == 0 then [] else chunk_from (length items) size items
