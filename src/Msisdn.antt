-- ===== src/Msisdn.antt =====
-- internal/msisdn/msisdn.go: Russian sender numbers and destinations. A string is its runes; `len`
-- counts bytes, and a byte is compared with an ASCII character only, which is a rune of one byte.
pub mod Canonical
mod Tests
use sms.Prelude.{
  ℕ, Bool, true, false, ◌&&◌, ◌||◌, Option, none, some, List, [], ◌∷◌, ◌++◌, filter_by, leb, ltb,
  ◌==◌, if◌then◌else◌,
}
use sms.Prelude.Text.{Text, byte_len, ascii_digit, is_digit}

unfoldable pub digits_only : Text → Text
digits_only = filter_by is_digit

-- s[0] == c
abbrev pub head_is : ℕ → Text → Bool
head_is c [] = false
head_is c (r ∷ s) = r == c

-- s[1:], where s[0] is ASCII.
abbrev pub tail_of : Text → Text
tail_of [] = []
tail_of (r ∷ s) = s

-- The switch over the digits.
unfoldable pub sender_of_digits : Text → Option Text
sender_of_digits digits =
    if byte_len digits == 11 && head_is b'7' digits
    then some digits
    else if byte_len digits == 11 && head_is b'8' digits
    then some (b'7' ∷ tail_of digits)
    else if byte_len digits == 10 && head_is b'9' digits
    then some (b'7' ∷ digits)
    else none

-- `none` is the error "want 7XXXXXXXXXX".
unfoldable pub normalize_sender : Text → Option Text
normalize_sender raw = sender_of_digits (digits_only raw)

-- The loop over the bytes.
unfoldable pub all_ascii_digits : Text → Bool
all_ascii_digits [] = true
all_ascii_digits (r ∷ s) = ascii_digit r && all_ascii_digits s

unfoldable pub is_sender : Text → Bool
unfolding all_ascii_digits
is_sender msisdn = byte_len msisdn == 11 && head_is b'7' msisdn && all_ascii_digits msisdn

pub record Dest : Type 0 where
  pub msisdn : Text
  pub international : Bool

-- The part that is reached when the number is no Russian one.
unfoldable pub foreign_dest : Text → Option Dest
foreign_dest digits =
    if ltb (byte_len digits) 8 || ltb 15 (byte_len digits)
    then none
    else if head_is b'0' digits
    then none
    else if is_sender digits
    then some (record { msisdn = digits; international = false })
    else some (record { msisdn = digits; international = true })

-- `none` is the error "invalid destination".
unfoldable pub normalize_dest : Text → Option Dest
normalize_dest raw = elim (normalize_sender raw) [
  | some n ↦ some (record { msisdn = n; international = false })
  | none ↦ foreign_dest (digits_only raw)
]

unfoldable pub canonical : Text → Text
canonical raw = digits_only raw

-- A number split into code and number by the provider.
unfoldable pub from_management : Text → Text → Option Text
from_management code number =
    let num = digits_only number in
    if byte_len num == 11 && head_is b'7' num
    then some num
    else (let combined = digits_only code ++ num in
        if byte_len combined == 11 && head_is b'7' combined
        then some combined
        else if byte_len combined == 10
        then some (b'7' ∷ combined)
        else none)
