-- ===== src/Msisdn/Tests.antt =====
-- Numbers of the tests beside the code, and instances of the theorems.
use sms.Prelude.{◌≡◌, refl, Bool, true, false, some, [], ◌∷◌, ◌≤◌, arith, All}
use sms.Prelude.Text.{Text, codes, byte_len, is_digit}
use sms.Msisdn.{
  digits_only, sender_of_digits, normalize_sender, is_sender, foreign_dest, normalize_dest, head_is,
}
use sms.Msisdn.Canonical.{
  normalize_sender-is_sender, normalize_sender_fixed, normalize_dest-lem, TwoByteDigit,
  normalize_sender_two_byte_digits,
}

national : normalize_sender (codes "8 (999) 111-22-33") ≡ some (codes "79991112233")
unfolding normalize_sender sender_of_digits digits_only is_digit
national = refl

normalize_sender-is_sender_example : is_sender (codes "79991112233") ≡ true
normalize_sender-is_sender_example =
    normalize_sender-is_sender (codes "8 (999) 111-22-33") (omega arith) national

normalize_sender_fixed_example : normalize_sender (codes "79991112233") ≡ some (codes "79991112233")
unfolding is_sender
normalize_sender_fixed_example = normalize_sender_fixed (codes "79991112233") refl

abroad :
    normalize_dest (codes "+49 151 1234567")
    ≡ some (record { msisdn = codes "491511234567"; international = true })
unfolding normalize_dest foreign_dest normalize_sender sender_of_digits digits_only is_digit
    is_sender
abroad = refl

normalize_dest-lem_example :
    (is_sender (codes "491511234567") ≡ false)
    × (◌≡◌ {A = Bool} true true
        → (codes "491511234567" ≡ digits_only (codes "+49 151 1234567"))
          × (8 ≤ byte_len (codes "491511234567"))
          × (byte_len (codes "491511234567") ≤ 15)
          × (head_is b'0' (codes "491511234567") ≡ false))
normalize_dest-lem_example = normalize_dest-lem (codes "+49 151 1234567") (omega arith) abroad

-- The digits one to five of Arabic script.
abbrev arabic : Text
arabic = 0x661 ∷ 0x662 ∷ 0x663 ∷ 0x664 ∷ 0x665 ∷ []

arabic-All : All TwoByteDigit arabic
unfolding is_digit
arabic-All = (
  (omega arith, omega arith, refl),
  (
    (omega arith, omega arith, refl),
    (
      (omega arith, omega arith, refl),
      ((omega arith, omega arith, refl), ((omega arith, omega arith, refl), tt)),
    ),
  ),
)

normalize_sender_two_byte_digits_example :
    (normalize_sender (b'7' ∷ arabic) ≡ some (b'7' ∷ arabic)) × (is_sender (b'7' ∷ arabic) ≡ false)
normalize_sender_two_byte_digits_example = normalize_sender_two_byte_digits arabic refl arabic-All
