-- ===== src/Billing/Pdu.antt =====
-- internal/billing/pdu.go: how many PDUs a text is billed for.
use sms.Prelude.{
  ℕ, ◌+◌, ◌-◌, ◌*◌, ◌/◌, ◌≤◌, ◌<◌, ◌≡◌, refl, ◌∙◌, ◌↔◌, ◌⊎◌, inl, inr, Bool, true, false, ◌&&◌,
  ◌||◌, List, [], ◌∷◌, ◌++◌, arith, any, length, leb, ltb, ◌==◌, Bool-cases, if◌then◌else◌,
}
use sms.Prelude.Text.{Text}

-- The GSM-7 default alphabet.
abbrev gsm7_basic : List ℕ
gsm7_basic =
    0x40 ∷ 0xa3 ∷ 0x24 ∷ 0xa5 ∷ 0xe8 ∷ 0xe9 ∷ 0xf9 ∷ 0xec ∷ 0xf2 ∷ 0xc7 ∷ 0xa ∷ 0xd8 ∷ 0xf8 ∷ 0xd
    ∷ 0xc5 ∷ 0xe5 ∷ 0x394 ∷ 0x5f ∷ 0x3a6 ∷ 0x393 ∷ 0x39b ∷ 0x3a9 ∷ 0x3a0 ∷ 0x3a8 ∷ 0x3a3 ∷ 0x398
    ∷ 0x39e ∷ 0xc6 ∷ 0xe6 ∷ 0xdf ∷ 0xc9 ∷ 0x20 ∷ 0x21 ∷ 0x22 ∷ 0x23 ∷ 0xa4 ∷ 0x25 ∷ 0x26 ∷ 0x27
    ∷ 0x28 ∷ 0x29 ∷ 0x2a ∷ 0x2b ∷ 0x2c ∷ 0x2d ∷ 0x2e ∷ 0x2f ∷ 0x30 ∷ 0x31 ∷ 0x32 ∷ 0x33 ∷ 0x34
    ∷ 0x35 ∷ 0x36 ∷ 0x37 ∷ 0x38 ∷ 0x39 ∷ 0x3a ∷ 0x3b ∷ 0x3c ∷ 0x3d ∷ 0x3e ∷ 0x3f ∷ 0xa1 ∷ 0x41
    ∷ 0x42 ∷ 0x43 ∷ 0x44 ∷ 0x45 ∷ 0x46 ∷ 0x47 ∷ 0x48 ∷ 0x49 ∷ 0x4a ∷ 0x4b ∷ 0x4c ∷ 0x4d ∷ 0x4e
    ∷ 0x4f ∷ 0x50 ∷ 0x51 ∷ 0x52 ∷ 0x53 ∷ 0x54 ∷ 0x55 ∷ 0x56 ∷ 0x57 ∷ 0x58 ∷ 0x59 ∷ 0x5a ∷ 0xc4
    ∷ 0xd6 ∷ 0xd1 ∷ 0xdc ∷ 0xa7 ∷ 0xbf ∷ 0x61 ∷ 0x62 ∷ 0x63 ∷ 0x64 ∷ 0x65 ∷ 0x66 ∷ 0x67 ∷ 0x68
    ∷ 0x69 ∷ 0x6a ∷ 0x6b ∷ 0x6c ∷ 0x6d ∷ 0x6e ∷ 0x6f ∷ 0x70 ∷ 0x71 ∷ 0x72 ∷ 0x73 ∷ 0x74 ∷ 0x75
    ∷ 0x76 ∷ 0x77 ∷ 0x78 ∷ 0x79 ∷ 0x7a ∷ 0xe4 ∷ 0xf6 ∷ 0xf1 ∷ 0xfc ∷ 0xe0 ∷ []

-- The extension table: an escape and a septet.
abbrev gsm7_escape : List ℕ
gsm7_escape = 0x7c ∷ 0x5e ∷ 0x20ac ∷ 0x7b ∷ 0x7d ∷ 0x5b ∷ 0x5d ∷ 0x7e ∷ 0x5c ∷ []

unfoldable pub in_basic : ℕ → Bool
in_basic r = any (λ c. c == r) gsm7_basic

unfoldable pub in_escape : ℕ → Bool
in_escape r = any (λ c. c == r) gsm7_escape

unfoldable pub is_gsm7 : Text → Bool
is_gsm7 [] = true
is_gsm7 (r ∷ s) = (in_basic r || in_escape r) && is_gsm7 s

unfoldable pub gsm7_septets : Text → ℕ
gsm7_septets [] = 0
gsm7_septets (r ∷ s) = (if in_escape r then 2 else 1) + gsm7_septets s

-- len(utf16.Encode(…)): a rune beyond the basic plane is a surrogate pair.
unfoldable pub utf16_units : Text → ℕ
utf16_units [] = 0
utf16_units (r ∷ s) = (if ltb r 0x10000 then 1 else 2) + utf16_units s

abbrev is_empty : Text → Bool
is_empty [] = true
is_empty (r ∷ s) = false

unfoldable pub segment_count : Text → ℕ
segment_count text =
    if is_empty text
    then 1
    else if is_gsm7 text
    then (let n = gsm7_septets text in if leb n 160 then 1 else (n + 152) / 153)
    else (let n = utf16_units text in if leb n 70 then 1 else (n + 66) / 67)

-- `n` units fit into `k` segments, and into no fewer: one segment takes `single` units, each of
-- several takes `part`.
pub record FewestSegments (n single part k : ℕ) : Type 0 where
  pub one : (k ≡ 1) ↔ (n ≤ single)
  pub enough : (k ≡ 1) ⊎ (n ≤ k * part)
  pub no_fewer : (k ≡ 1) ⊎ ((k - 1) * part < n)

abbrev gsm7_segments : ℕ → ℕ
gsm7_segments n = if leb n 160 then 1 else (n + 152) / 153

abbrev ucs2_segments : ℕ → ℕ
ucs2_segments n = if leb n 70 then 1 else (n + 66) / 67

gsm7_fewest : (n : ℕ) → FewestSegments n 160 153 (gsm7_segments n)
gsm7_fewest n = ground arith

ucs2_fewest : (n : ℕ) → FewestSegments n 70 67 (ucs2_segments n)
ucs2_fewest n = ground arith

segment_count-gsm7 :
    (s : Text) → is_gsm7 s ≡ true → segment_count s ≡ gsm7_segments (gsm7_septets s)
unfolding segment_count
segment_count-gsm7 [] e = unfold gsm7_septets in refl
segment_count-gsm7 (r ∷ s) e = rw e

segment_count-ucs2 :
    (s : Text) → is_gsm7 s ≡ false → segment_count s ≡ ucs2_segments (utf16_units s)
unfolding segment_count
segment_count-ucs2 [] e = unfold utf16_units in refl
segment_count-ucs2 (r ∷ s) e = rw e

-- A text of the GSM-7 alphabet is billed for the fewest segments of 160 septets alone or 153 each
-- that its septets fit into, any other text for the fewest of 70 UTF-16 units alone or 67 each.
pub segment_count_fewest :
    (text : Text)
    → (is_gsm7 text ≡ true → FewestSegments (gsm7_septets text) 160 153 (segment_count text))
      × (is_gsm7 text ≡ false → FewestSegments (utf16_units text) 70 67 (segment_count text))
segment_count_fewest text = (
  λ e. rw (segment_count-gsm7 text e) (gsm7_fewest (gsm7_septets text)),
  λ e. rw (segment_count-ucs2 text e) (ucs2_fewest (utf16_units text)),
)

gsm7_mono : (n m : ℕ) → gsm7_segments n ≤ gsm7_segments (n + m)
gsm7_mono n m = ground arith

ucs2_mono : (n m : ℕ) → ucs2_segments n ≤ ucs2_segments (n + m)
ucs2_mono n m = ground arith

is_gsm7-append : (s t : Text) → is_gsm7 (s ++ t) ≡ (is_gsm7 s && is_gsm7 t)
unfolding is_gsm7
is_gsm7-append [] t = refl
is_gsm7-append (r ∷ s) t = ground (arith, is_gsm7-append s t)

gsm7_septets-append : (s t : Text) → gsm7_septets (s ++ t) ≡ gsm7_septets s + gsm7_septets t
unfolding gsm7_septets
gsm7_septets-append [] t = omega arith
gsm7_septets-append (r ∷ s) t = omega (arith, gsm7_septets-append s t)

utf16_units-append : (s t : Text) → utf16_units (s ++ t) ≡ utf16_units s + utf16_units t
unfolding utf16_units
utf16_units-append [] t = omega arith
utf16_units-append (r ∷ s) t = omega (arith, utf16_units-append s t)

gsm7_septets-le : (s : Text) → gsm7_septets s ≤ 2 * length s
unfolding gsm7_septets
gsm7_septets-le [] = omega arith
gsm7_septets-le (r ∷ s) = ground (arith, gsm7_septets-le s)

length-le-utf16_units : (s : Text) → length s ≤ utf16_units s
unfolding utf16_units
length-le-utf16_units [] = omega arith
length-le-utf16_units (r ∷ s) = ground (arith, length-le-utf16_units s)

not_gsm7-utf16_units : (s : Text) → is_gsm7 s ≡ false → 1 ≤ utf16_units s
unfolding is_gsm7 utf16_units
not_gsm7-utf16_units [] e = cc
not_gsm7-utf16_units (r ∷ s) e = ground arith

-- A segment of 153 septets holds at least as much as one of 67 units.
gsm7-le-ucs2 : (c n u : ℕ) → n ≤ 2 * c → c + 1 ≤ u → gsm7_segments n ≤ ucs2_segments u
gsm7-le-ucs2 c n u h k = ground arith

-- A longer text is billed for at least as many segments, also where the addition leaves the GSM-7
-- alphabet.
pub segment_count-append_le : (s t : Text) → segment_count s ≤ segment_count (s ++ t)
segment_count-append_le s t = elim (Bool-cases (is_gsm7 s)) [
  | inl gsm ↦ elim (Bool-cases (is_gsm7 t)) [
    | inl gsm' ↦
        rw
          (
            segment_count-gsm7 s gsm,
            segment_count-gsm7 (s ++ t) (is_gsm7-append s t ∙ rw (gsm, gsm') refl),
            gsm7_septets-append s t,
          )
          (gsm7_mono (gsm7_septets s) (gsm7_septets t))
    | inr other ↦
        rw
          (
            segment_count-gsm7 s gsm,
            segment_count-ucs2 (s ++ t) (is_gsm7-append s t ∙ rw (gsm, other) refl),
            utf16_units-append s t,
          )
          (gsm7-le-ucs2 (length s) (gsm7_septets s) (utf16_units s + utf16_units t)
            (gsm7_septets-le s)
            (omega (arith, length-le-utf16_units s, not_gsm7-utf16_units t other)))
  ]
  | inr other ↦
      rw
        (
          segment_count-ucs2 s other,
          segment_count-ucs2 (s ++ t) (is_gsm7-append s t ∙ rw other refl),
          utf16_units-append s t,
        )
        (ucs2_mono (utf16_units s) (utf16_units t))
]
