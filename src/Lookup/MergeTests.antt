-- ===== src/Lookup/MergeTests.antt =====
-- internal/lookup/apply.go: an instance of the theorem on enriched results.
use sms.Prelude.{◌≡◌, true, false, ◌||◌}
use sms.Prelude.Text.{codes}
use sms.Lookup.Apply.{NormalizedResult, is_blank, is_final_status, is_pending_status, merge_enrich}
use sms.Lookup.Merging.{no_report, merge_enrich-result}

abbrev reachable : NormalizedResult
reachable = record no_report { result_status = codes "reachable"; imsi = codes "25001" }

merge_enrich-result_example :
    (is_blank (merge_enrich reachable no_report).result_status ≡ false)
    × (is_final_status reachable.result_status ≡ true
        → (is_final_status no_report.result_status
            || is_pending_status no_report.result_status
            || is_blank no_report.result_status)
          ≡ true
        → is_final_status (merge_enrich reachable no_report).result_status ≡ true)
merge_enrich-result_example = merge_enrich-result reachable no_report
