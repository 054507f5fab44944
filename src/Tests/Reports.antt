-- ===== src/Tests/Reports.antt =====
-- The monthly report and the freshness of evidence at concrete inputs.
use mori_soc.Prelude.{text_lt, ℕ, ◌≤◌, String, ◌≡◌, refl, Option, none, some, List, [], ◌∷◌, arith}
use mori_soc.ChangeReport.{EvidenceStamp, build_evidence_change_report}
use mori_soc.ChangeReport.Adjoining.{AddUp, reports-AddUp}
use mori_soc.Freshness.{EvidenceRecord, freshness_at, latest}
use mori_soc.Freshness.Ageing.{trust, freshness-ages}

abbrev may : String
may = "2025-05-01T00:00:00+00:00"

abbrev june : String
june = "2025-06-01T00:00:00+00:00"

abbrev july : String
july = "2025-07-01T00:00:00+00:00"

abbrev collected_evidence : List EvidenceStamp
collected_evidence =
    record { control_id = "AC-2"; generated_at = "2025-05-31T23:59:59+00:00"; created_at = "" }
    ∷ record { control_id = "AC-2"; generated_at = june; created_at = "" }
    ∷ record { control_id = "AU-6"; generated_at = ""; created_at = july }
    ∷ []

june_alone :
    (build_evidence_change_report june july collected_evidence [] []).new_evidence_count ≡ 1
unfolding build_evidence_change_report
june_alone = refl

reports-AddUp_example :
    AddUp "AC-2"
      (build_evidence_change_report may june collected_evidence [] [])
      (build_evidence_change_report june july collected_evidence [] [])
      (build_evidence_change_report may july collected_evidence [] [])
unfolding text_lt
reports-AddUp_example = reports-AddUp may june july refl refl "AC-2" collected_evidence [] []

-- Every text reads as the end of the first day.
abbrev read_may : String → Option ℕ
read_may s = some 86400000000

abbrev scan_record : EvidenceRecord
scan_record = record {
  generated_at = may;
  created_at = "";
  source = "trivy";
  applied = 3;
  target_count = 0;
  missing = 1;
  missing_count = 0;
}

becomes_stale :
    ((freshness_at read_may (scan_record ∷ []) 172800000000 none "" 30 90).status
      ≡ "evidence_available")
    × ((freshness_at read_may (scan_record ∷ []) 4320000000000 none "" 30 90).status
        ≡ "evidence_stale")
unfolding freshness_at latest
becomes_stale = (refl, refl)

freshness-ages_example :
    trust (freshness_at read_may (scan_record ∷ []) 4320000000000 none "" 30 90).status
    ≤ trust (freshness_at read_may (scan_record ∷ []) 172800000000 none "" 30 90).status
freshness-ages_example =
    freshness-ages read_may (scan_record ∷ []) 172800000000 4320000000000 none "" 30 90
      (omega arith)
