-- ===== src/Billing/Tests.antt =====
-- Instances of the theorems on the price of a text.
use sms.Prelude.{◌≡◌, ◌≤◌, true, false, ◌++◌}
use sms.Prelude.Text.{Text, codes}
use sms.Billing.Pdu.{
  is_gsm7, gsm7_septets, utf16_units, segment_count, FewestSegments, segment_count_fewest,
  segment_count-append_le,
}

abbrev code_text : Text
code_text = codes "Your code: 1234"

segment_count_fewest_example :
    (is_gsm7 code_text ≡ true
      → FewestSegments (gsm7_septets code_text) 160 153 (segment_count code_text))
    × (is_gsm7 code_text ≡ false
        → FewestSegments (utf16_units code_text) 70 67 (segment_count code_text))
segment_count_fewest_example = segment_count_fewest code_text

segment_count-append_le_example :
    segment_count code_text ≤ segment_count (code_text ++ codes ". Do not share it.")
segment_count-append_le_example = segment_count-append_le code_text (codes ". Do not share it.")
