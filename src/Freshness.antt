-- ===== src/Freshness.antt =====
-- How far the evidence of a control can be trusted by its age:
-- src/mori_soc/services/evidence_freshness.py. The reading of ISO times, in microseconds, is a
-- parameter, and so is the clock that stands in for a time that cannot be read.
use mori_soc.Prelude.{
  ltb, leb, eqb, if◌then◌else◌, length, or_text, contains, text_lt, ℕ, ◌-◌, ◌/◌, String, Bool, true,
  false, ◌&&◌, Option, none, some, List, [], ◌∷◌, map, ◌==◌,
}
use mori_soc.Prelude.Tally.{total}
use mori_soc.Approval.{Approval}
use mori_soc.Governance.Catalog.{add_text, sort_texts}
pub mod Ageing

-- A count that is missing is 0.
pub record EvidenceRecord : Type 0 where
  pub generated_at : String
  pub created_at : String
  pub source : String
  pub applied : ℕ
  pub target_count : ℕ
  pub missing : ℕ
  pub missing_count : ℕ

abbrev pub or_count : ℕ → ℕ → ℕ
or_count a b = if eqb a 0 then b else a

abbrev pub max_text : String → String → String
max_text s t = if text_lt s t then t else s

-- `max(vals)` of the texts that are not empty, or ""
unfoldable pub latest : (EvidenceRecord → String) → List EvidenceRecord → String
unfolding text_lt
latest field [] = ""
latest field (r ∷ rs) = max_text (field r) (latest field rs)

unfoldable pub source_set : List EvidenceRecord → List String
unfolding add_text
source_set [] = []
source_set (r ∷ rs) =
    let rest = source_set rs in if r.source == "" then rest else add_text rest r.source

-- What the source takes for missing is `none`.
pub record Freshness : Type 0 where
  pub count : ℕ
  pub status : String
  pub last_collected : String
  pub age_days : Option ℕ
  pub stale : Bool
  pub applied : ℕ
  pub missing : ℕ
  pub sources : List String
  pub reviewed_at : String
  pub review_age_days : Option ℕ

abbrev pub no_freshness : Freshness
no_freshness = record {
  count = 0;
  status = "no_evidence";
  last_collected = "";
  age_days = none;
  stale = false;
  applied = 0;
  missing = 0;
  sources = [];
  reviewed_at = "";
  review_age_days = none;
}

abbrev pub exceeds : Option ℕ → ℕ → Bool
exceeds none days = false
exceeds (some age) days = ltb days age

abbrev pub within : Option ℕ → ℕ → Bool
within none days = false
within (some age) days = leb age days

abbrev pub is_given : Option Approval → Bool
is_given none = false
is_given (some _) = true

abbrev pub review_time : Option Approval → String
review_time none = ""
review_time (some a) = or_text a.approved_at (or_text a.reviewed_at a.created_at)

abbrev pub review_statuses : List String
review_statuses = "draft" ∷ "reviewed" ∷ "superseded" ∷ []

-- The chain of tests.
abbrev pub status_by : Bool → Bool → Bool → Bool → String
status_by stale review_ok approved in_review_cycle =
    if stale
    then "evidence_stale"
    else if review_ok
    then "human_verified"
    else if approved
    then "review_required"
    else if in_review_cycle
    then "review_required"
    else "evidence_available"

-- A day in microseconds
abbrev pub day : ℕ
day = 86400000000

-- `max(0, (now - dt).days)`
abbrev pub age_of : Option ℕ → ℕ → Option ℕ
age_of none now = none
age_of (some t) now = some ((now - t) / day)

module _ (parse_iso : String → Option ℕ) where
  abbrev pub age_days : String → ℕ → Option ℕ
  age_days iso now = age_of (parse_iso iso) now

  abbrev pub review_age : String → ℕ → Option ℕ
  review_age reviewed_at now = if reviewed_at == "" then none else age_days reviewed_at now

  -- With the time that has been read.
  unfoldable pub freshness_at :
      List EvidenceRecord → ℕ → Option Approval → String → ℕ → ℕ → Freshness
  unfolding latest source_set sort_texts
  freshness_at [] now approval approval_status stale_days review_stale_days = no_freshness
  freshness_at (r ∷ rs) now approval approval_status stale_days review_stale_days =
      let recs = r ∷ rs in
      let last_collected =
        or_text (latest (λ e. e.generated_at) recs) (latest (λ e. e.created_at) recs) in
      let age = age_days last_collected now in
      let stale = exceeds age stale_days in
      let reviewed_at = review_time approval in
      let reviewed_age = review_age reviewed_at now in
      let approved = approval_status == "approved" in
      record {
        count = length recs;
        status =
            status_by stale (approved && within reviewed_age review_stale_days) approved
              (is_given approval && contains review_statuses approval_status);
        last_collected = last_collected;
        age_days = age;
        stale = stale;
        applied = total (map (λ (e : EvidenceRecord). or_count e.applied e.target_count) recs);
        missing = total (map (λ (e : EvidenceRecord). or_count e.missing e.missing_count) recs);
        sources = sort_texts (source_set recs);
        reviewed_at = reviewed_at;
        review_age_days = reviewed_age;
      }

  unfoldable pub compute_freshness :
      List EvidenceRecord → String → ℕ → Option Approval → String → ℕ → ℕ → Freshness
  unfolding freshness_at
  compute_freshness recs now_iso clock approval approval_status stale_days review_stale_days =
      let now = elim (parse_iso now_iso) as (λ _. ℕ) [ none ↦ clock | some t ↦ t ] in
      freshness_at recs now approval approval_status stale_days review_stale_days
