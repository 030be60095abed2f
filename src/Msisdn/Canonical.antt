-- ===== src/Msisdn/Canonical.antt =====
-- What the accepted numbers look like.
use sms.Prelude.{
  ℕ, ◌≤◌, ◌<◌, ◌≡◌, refl, true, false, none, some, [], ◌∷◌, All, arith, not, ◌*◌, length,
  Bool-cases, Option-cases, inl, inr,
}
use sms.Prelude.Text.{
  Text, rune_len, byte_len, ascii_digit, is_digit, is_digit_ascii, is_digit_of_ascii,
}
use sms.Msisdn.{
  digits_only, head_is, sender_of_digits, normalize_sender, all_ascii_digits, is_sender, Dest,
  foreign_dest, normalize_dest,
}

abbrev pub Ascii : Text → Type 0
Ascii s = All (λ r. r < 0x80) s

pub digits_only-Ascii : (s : Text) → Ascii s → all_ascii_digits (digits_only s) ≡ true
unfolding digits_only all_ascii_digits
digits_only-Ascii [] h = refl
digits_only-Ascii (r ∷ s) h = ground (arith, is_digit_ascii r h.0, digits_only-Ascii s h.1)

-- Digits stay.
pub digits_only_id : (s : Text) → all_ascii_digits s ≡ true → digits_only s ≡ s
unfolding digits_only all_ascii_digits
digits_only_id [] h = refl
digits_only_id (r ∷ s) h = ground (arith, is_digit_of_ascii r, digits_only_id s)

-- The first byte is put on or replaced; the rest is the digits.
sender_of_digits-is_sender :
    (d : Text) {n : Text}
    → all_ascii_digits d ≡ true
    → sender_of_digits d ≡ some n
    → is_sender n ≡ true
unfolding sender_of_digits is_sender all_ascii_digits
sender_of_digits-is_sender [] h e = ground arith
sender_of_digits-is_sender (r ∷ d) h e = ground arith

-- From ASCII input an accepted sender is canonical: eleven digits, the first of them 7.
pub normalize_sender-is_sender :
    (raw : Text) {n : Text} → Ascii raw → normalize_sender raw ≡ some n → is_sender n ≡ true
unfolding normalize_sender
normalize_sender-is_sender raw h e =
    sender_of_digits-is_sender (digits_only raw) (digits_only-Ascii raw h) e

-- A canonical sender is normalized to itself.
pub normalize_sender_fixed : (n : Text) → is_sender n ≡ true → normalize_sender n ≡ some n
unfolding normalize_sender
normalize_sender_fixed n e =
    rw (digits_only_id n (canonical_parts n e).2)
      (unfold sender_of_digits in ground (arith, canonical_parts n e))
  where
    canonical_parts :
        (m : Text)
        → is_sender m ≡ true
        → (byte_len m ≡ 11) × (head_is b'7' m ≡ true) × (all_ascii_digits m ≡ true)
    canonical_parts m x = unfold is_sender in ground arith

foreign_dest-lem :
    (d : Text) (x : Dest)
    → sender_of_digits d ≡ none
    → foreign_dest d ≡ some x
    → (x.msisdn ≡ d)
      × (8 ≤ byte_len d)
      × (byte_len d ≤ 15)
      × (head_is b'0' d ≡ false)
      × (is_sender d ≡ not x.international)
unfolding foreign_dest
foreign_dest-lem d x n e = ground arith

-- From ASCII input an accepted destination is a canonical sender if and only if it is domestic; an
-- international one is the digits of the input, 8 to 15 of them, the first of them not 0.
pub normalize_dest-lem :
    (raw : Text) {x : Dest}
    → Ascii raw
    → normalize_dest raw ≡ some x
    → (is_sender x.msisdn ≡ not x.international)
      × (x.international ≡ true
          → (x.msisdn ≡ digits_only raw)
            × (8 ≤ byte_len x.msisdn)
            × (byte_len x.msisdn ≤ 15)
            × (head_is b'0' x.msisdn ≡ false))
unfolding normalize_dest normalize_sender
normalize_dest-lem raw {x} h e = elim (Option-cases (normalize_sender raw)) [
  | inr (n, found) ↦ ground (arith, normalize_sender-is_sender raw h found)
  | inl missing ↦ ground (arith, foreign_dest-lem (digits_only raw) x missing)
]

rune_len_two : (r : ℕ) → 0x80 ≤ r → r < 0x800 → rune_len r ≡ 2
rune_len_two r h k = ground arith

ascii_digit_small : (r : ℕ) → 0x80 ≤ r → ascii_digit r ≡ true → ⊥
ascii_digit_small r h e = ground arith

digits_only-All : (s : Text) → All (λ r. is_digit r ≡ true) s → digits_only s ≡ s
unfolding digits_only
digits_only-All [] h = refl
digits_only-All (r ∷ s) h = rw (h.0, digits_only-All s h.1)

-- A decimal digit of two bytes.
abbrev pub TwoByteDigit : ℕ → Type 0
TwoByteDigit r = (0x80 ≤ r) × (r < 0x800) × (is_digit r ≡ true)

two_byte_len : (ds : Text) → All TwoByteDigit ds → byte_len ds ≡ 2 * length ds
two_byte_len [] h = refl
two_byte_len (r ∷ ds) h = omega (arith, rune_len_two r h.0.0 h.0.1, two_byte_len ds h.1)

two_byte_digits : (ds : Text) → All TwoByteDigit ds → All (λ r. is_digit r ≡ true) ds
two_byte_digits [] h = tt
two_byte_digits (r ∷ ds) h = (h.0.2, two_byte_digits ds h.1)

-- Eleven bytes of which the first is 7 are taken as they stand.
eleven_bytes : (ds : Text) → byte_len ds ≡ 10 → sender_of_digits (b'7' ∷ ds) ≡ some (b'7' ∷ ds)
unfolding sender_of_digits
eleven_bytes ds e = rw e refl

not_ascii : (r : ℕ) (ds : Text) → 0x80 ≤ r → is_sender (b'7' ∷ r ∷ ds) ≡ false
unfolding is_sender all_ascii_digits
not_ascii r ds h = elim (Bool-cases (ascii_digit r)) [
  | inl digit ↦ absurd (ascii_digit_small r h digit)
  | inr other ↦ rw other (ground arith)
]

five_not_ascii : (ds : Text) → length ds ≡ 5 → All TwoByteDigit ds → is_sender (b'7' ∷ ds) ≡ false
five_not_ascii [] n h = absurd (omega (arith, n))
five_not_ascii (r ∷ ds) n h = not_ascii r ds h.0.0

-- Eleven bytes need not be eleven digits: a 7 and any five decimal digits of two bytes each, such as
-- Arabic ones, pass as a sender that is returned as it stands and is no sender.
pub normalize_sender_two_byte_digits :
    (ds : Text)
    → length ds ≡ 5
    → All TwoByteDigit ds
    → (normalize_sender (b'7' ∷ ds) ≡ some (b'7' ∷ ds)) × (is_sender (b'7' ∷ ds) ≡ false)
unfolding normalize_sender
normalize_sender_two_byte_digits ds n h =
    rw (digits_only-All (b'7' ∷ ds) (is_digit_of_ascii b'7' refl, two_byte_digits ds h))
      (eleven_bytes ds (omega (arith, two_byte_len ds h, n)), five_not_ascii ds n h)
