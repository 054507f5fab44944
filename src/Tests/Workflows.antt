-- ===== src/Tests/Workflows.antt =====
-- Gaps and evidence approvals at concrete inputs.
use mori_soc.Prelude.{
  none, Option, ◌⊎◌, false, ◌==◌, count_if, ◌≤◌, String, ◌<>◌, ◌≡◌, refl, some, List, [], ◌∷◌,
}
use mori_soc.Prelude.Dict.{get}
use mori_soc.Gap.{can_move, Gap, GapRequest, build_gap, move_gap, gap_transition}
use mori_soc.Gap.Reach.{created, moved_on, Accounted, Reachable-Accounted}
use mori_soc.Approval.{
  Approval, ApprovalRequest, store_reply, build_approval, evidence_transition, recorded,
}
use mori_soc.Approval.Reviewed.{approved_after_review}
use mori_soc.Approval.Unique.{NodupIds, Stored, none_yet, one_more, one_approved, is_approved}

abbrev joined : String → List String → String
joined prefix [] = prefix
joined prefix (p ∷ ps) = joined (prefix <> "|" <> p) ps

abbrev open_gap : Gap
open_gap = build_gap joined "scan" "2.10.8" "CVE-1" "Old kernel" "" "2025-01-01" "system"

abbrev confirm : GapRequest
confirm = record {
  target = "confirmed";
  assignee = "kim";
  due_date = "";
  note = "";
  resolution_type = "";
  verifying_scan = "";
  evidence_ref = "";
}

Reachable-Accounted_example : Accounted (move_gap open_gap confirm "kim" "2025-01-02")
unfolding gap_transition build_gap move_gap can_move get
Reachable-Accounted_example =
    Reachable-Accounted joined (move_gap open_gap confirm "kim" "2025-01-02") (
      moved_on (("g", open_gap) ∷ []) "g" confirm "kim" "2025-01-02" open_gap
        (move_gap open_gap confirm "kim" "2025-01-02")
        (created "scan" "2.10.8" "CVE-1" "Old kernel" "" "2025-01-01" "system") refl refl)

-- The days of a month as seconds.
abbrev whole : String → String
whole s = s

abbrev asks : String → ApprovalRequest
asks target = record { target = target; reason = ""; pdf_sha256 = "" }

abbrev review : Approval
review = build_approval joined whole "2.1" "h1" "h1" (asks "reviewed") "kim" "" "2025-01-01"

abbrev approval : Approval
approval =
    build_approval joined whole "2.1" "h1" "h1" (asks "approved") "lee" review.approval_id
      "2025-01-02"

reviewed_once : Stored joined whole (store_reply [] (recorded review))
unfolding evidence_transition build_approval
reviewed_once =
    one_more [] (some "security") (some "h1") "2.1" "kim" (asks "reviewed") "2025-01-01" review
      none_yet refl refl

one_approved_example :
    NodupIds (store_reply [] (recorded review))
    × (count_if is_approved (store_reply [] (recorded review)) ≤ 1)
one_approved_example = one_approved joined whole (store_reply [] (recorded review)) reviewed_once

abbrev evidence : Option String
evidence = some "h1"

abbrev admin : Option String
admin = some "admin"

approved_after_review_example :
    ((admin ≡ none) ⊎ (admin ≡ some "admin"))
    × (evidence ≡ some approval.content_hash)
    × ((latest : Approval) × (older : List Approval) × ((review ∷ []) ≡ latest ∷ older)
        × (latest.status ≡ "reviewed")
        × ((approval.content_hash == "") ≡ false → latest.content_hash ≡ approval.content_hash))
unfolding evidence_transition build_approval
approved_after_review_example =
    approved_after_review joined whole admin evidence "2.1" "lee" (review ∷ []) (asks "approved")
      "2025-01-02" approval refl refl
