-- ===== src/Prelude/Text.antt =====
-- Text as the list of its runes (Unicode code points), with what the code uses of the packages
-- strings, unicode and unicode/utf8.
use Prim.Native.Nat.{ℕ, ◌+◌, ◌≤◌, ◌<◌}
use Prim.Native.Char.{code}
use Prim.Native.String.{String}
use mathlib.Core.Path.{◌≡◌, refl, sym}
use mathlib.Core.Logic.{◌↔◌}
use mathlib.Core.Bool.{Bool, true, false, ◌&&◌, ◌||◌}
use mathlib.Core.List.{List, [], ◌∷◌, reverse}
use native.Mathlib.Omega.{arith}
use sms.Prelude.Tests.{ltb, leb, ◌==◌, if◌then◌else◌}
use sms.Prelude.Lists.{All}

abbrev pub Text : Type 0
Text = List ℕ

-- A literal of the source.
abbrev pub codes : String → Text
codes String.[] = []
codes (String.◌∷◌ c s) = code c ∷ codes s

unfoldable pub text_eq : Text → Text → Bool
text_eq [] [] = true
text_eq [] (d ∷ t) = false
text_eq (c ∷ s) [] = false
text_eq (c ∷ s) (d ∷ t) = c == d && text_eq s t

pub text_eq_iff : (s t : Text) → (text_eq s t ≡ true) ↔ (s ≡ t)
unfolding text_eq
text_eq_iff [] [] = ground arith
text_eq_iff [] (d ∷ t) = ground arith
text_eq_iff (c ∷ s) [] = ground arith
text_eq_iff (c ∷ s) (d ∷ t) = ground (arith, text_eq_iff s t)

pub text_eq_refl : (s : Text) → text_eq s s ≡ true
text_eq_refl s = (text_eq_iff s s).1 refl

-- How many bytes a rune takes in UTF-8.
abbrev pub rune_len : ℕ → ℕ
rune_len r = if ltb r 0x80 then 1 else if ltb r 0x800 then 2 else if ltb r 0x10000 then 3 else 4

-- Go's `len` of a string.
abbrev pub byte_len : Text → ℕ
byte_len [] = 0
byte_len (r ∷ s) = rune_len r + byte_len s

abbrev pub ascii_digit : ℕ → Bool
ascii_digit r = leb b'0' r && leb r b'9'

-- The first code points of the ranges of ten decimal digits (category Nd) beyond ASCII.
abbrev digit_starts : List ℕ
digit_starts =
    0x660 ∷ 0x6f0 ∷ 0x7c0 ∷ 0x966 ∷ 0x9e6 ∷ 0xa66 ∷ 0xae6 ∷ 0xb66 ∷ 0xbe6 ∷ 0xc66 ∷ 0xce6 ∷ 0xd66
    ∷ 0xde6 ∷ 0xe50 ∷ 0xed0 ∷ 0xf20 ∷ 0x1040 ∷ 0x1090 ∷ 0x17e0 ∷ 0x1810 ∷ 0x1946 ∷ 0x19d0 ∷ 0x1a80
    ∷ 0x1a90 ∷ 0x1b50 ∷ 0x1bb0 ∷ 0x1c40 ∷ 0x1c50 ∷ 0xa620 ∷ 0xa8d0 ∷ 0xa900 ∷ 0xa9d0 ∷ 0xa9f0
    ∷ 0xaa50 ∷ 0xabf0 ∷ 0xff10 ∷ 0x104a0 ∷ 0x10d30 ∷ 0x11066 ∷ 0x110f0 ∷ 0x11136 ∷ 0x111d0 ∷ 0x112f0
    ∷ 0x11450 ∷ 0x114d0 ∷ 0x11650 ∷ 0x116c0 ∷ 0x11730 ∷ 0x118e0 ∷ 0x11950 ∷ 0x11c50 ∷ 0x11d50
    ∷ 0x11da0 ∷ 0x11f50 ∷ 0x16a60 ∷ 0x16ac0 ∷ 0x16b50 ∷ 0x1d7ce ∷ 0x1d7d8 ∷ 0x1d7e2 ∷ 0x1d7ec
    ∷ 0x1d7f6 ∷ 0x1e140 ∷ 0x1e2f0 ∷ 0x1e4f0 ∷ 0x1e950 ∷ 0x1fbf0 ∷ []

in_tens : ℕ → List ℕ → Bool
in_tens r [] = false
in_tens r (s ∷ ss) = (leb s r && ltb r (s + 10)) || in_tens r ss

-- unicode.IsDigit
unfoldable pub is_digit : ℕ → Bool
unfolding in_tens
is_digit r = ascii_digit r || in_tens r digit_starts

in_tens_above : (r : ℕ) (ss : List ℕ) → All (λ s. 0x80 ≤ s) ss → in_tens r ss ≡ true → 0x80 ≤ r
unfolding in_tens
in_tens_above r [] h e = ground arith
in_tens_above r (s ∷ ss) h e = ground (arith, in_tens_above r ss h.1)

or_absorb : (a b : Bool) → (b ≡ true → a ≡ true) → (a || b) ≡ a
or_absorb true b h = refl
or_absorb false true h = sym (h refl)
or_absorb false false h = refl

-- Among the ASCII characters `is_digit` accepts '0' to '9' alone.
pub is_digit_ascii : (r : ℕ) → r < 0x80 → is_digit r ≡ ascii_digit r
unfolding is_digit
is_digit_ascii r h =
    or_absorb (ascii_digit r) (in_tens r digit_starts)
      (λ e. absurd (omega (arith, in_tens_above r digit_starts (omega arith) e)))

pub is_digit_of_ascii : (r : ℕ) → ascii_digit r ≡ true → is_digit r ≡ true
unfolding is_digit
is_digit_of_ascii r h = rw h

-- unicode.IsSpace
abbrev pub is_space : ℕ → Bool
is_space r =
    (leb 9 r && leb r 13)
    || r == 32
    || r == 0x85
    || r == 0xa0
    || r == 0x1680
    || (leb 0x2000 r && leb r 0x200a)
    || r == 0x2028
    || r == 0x2029
    || r == 0x202f
    || r == 0x205f
    || r == 0x3000

unfoldable pub trim_left : Text → Text
trim_left [] = []
trim_left (r ∷ s) = if is_space r then trim_left s else r ∷ s

-- strings.TrimSpace
unfoldable pub trim_space : Text → Text
unfolding trim_left
trim_space s = reverse (trim_left (reverse (trim_left s)))
