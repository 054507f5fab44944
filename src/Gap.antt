-- ===== src/Gap.antt =====
-- The workflow of a technical gap: src/mori_soc/services/gap_workflow.py, and the handlers that
-- create and move a gap in src/mori_soc/api/routes/compliance.py.
use mori_soc.Prelude.{
  if◌then◌else◌, or_text, contains, ◌+◌, String, Bool, not, ◌&&◌, none, some, List, [], ◌∷◌, ◌++◌,
  ◌==◌,
}
use mori_soc.Prelude.Dict.{Dict, get, is_some, or_value, put}
pub mod Reach
pub mod Deadlines

abbrev pub gap_statuses : List String
gap_statuses =
    "candidate" ∷ "confirmed" ∷ "policy_review" ∷ "false_positive" ∷ "remediation"
    ∷ "accepted_exception" ∷ "resolved" ∷ []

abbrev pub resolution_types : List String
resolution_types = "automatically_reverified" ∷ "manually_verified" ∷ "policy_confirmed" ∷ []

-- `_VALID`: the states that lead to each target.
abbrev pub valid_sources : Dict (List String)
valid_sources =
    ("confirmed", "candidate" ∷ "policy_review" ∷ "remediation" ∷ "accepted_exception" ∷ [])
    ∷ ("false_positive", "candidate" ∷ "policy_review" ∷ [])
    ∷ ("policy_review", "candidate" ∷ [])
    ∷ ("remediation", "confirmed" ∷ [])
    ∷ ("accepted_exception", "confirmed" ∷ [])
    ∷ ("resolved", "remediation" ∷ [])
    ∷ ("candidate", [])
    ∷ []

unfoldable pub can_move : String → String → Bool
unfolding get
can_move current target =
    let found = get valid_sources target in
    is_some found && contains (or_value found []) (or_text current "candidate")

pub record Step : Type 0 where
  pub ts : String
  pub actor : String
  pub action : String
  pub to : String
  pub note : String
  pub resolution_type : String

-- A field that the source adds only on the way to "resolved" is "" before.
pub record Gap : Type 0 where
  pub gap_id : String
  pub source : String
  pub control_id : String
  pub key : String
  pub title : String
  pub detail : String
  pub status : String
  pub assignee : String
  pub due_date : String
  pub resolution : String
  pub evidence_ref : String
  pub created_by : String
  pub created_at : String
  pub updated_at : String
  pub resolution_type : String
  pub verifier : String
  pub verified_at : String
  pub verifying_scan : String
  pub history : List Step

-- What the body of a request says; a field that it leaves out is "".
pub record GapRequest : Type 0 where
  pub target : String
  pub assignee : String
  pub due_date : String
  pub note : String
  pub resolution_type : String
  pub verifying_scan : String
  pub evidence_ref : String

-- `short_id` is the digest of the parts, a parameter.
module _ (short_id : String → List String → String) where
  unfoldable pub build_gap : String → String → String → String → String → String → String → Gap
  build_gap source control_id key title detail now created_by = record {
    gap_id = short_id "gap" (source ∷ control_id ∷ key ∷ []);
    source = source;
    control_id = control_id;
    key = key;
    title = title;
    detail = detail;
    status = "candidate";
    assignee = "";
    due_date = "";
    resolution = "";
    evidence_ref = "";
    created_by = created_by;
    created_at = now;
    updated_at = now;
    resolution_type = "";
    verifier = "";
    verified_at = "";
    verifying_scan = "";
    history =
        record {
          ts = now;
          actor = created_by;
          action = "created";
          to = "candidate";
          note = "";
          resolution_type = "";
        }
        ∷ [];
  }

abbrev pub keeps_note : String → Bool
keeps_note target = contains ("resolved" ∷ "accepted_exception" ∷ "false_positive" ∷ []) target

-- The record as the handler replies with it; the table of gaps stamps its own time of the update.
unfoldable pub move_gap : Gap → GapRequest → String → String → Gap
move_gap gap request actor now =
    let target = request.target in
    let resolved = target == "resolved" in
    record gap {
      status = target;
      assignee = or_text request.assignee gap.assignee;
      due_date = or_text request.due_date gap.due_date;
      resolution =
          if keeps_note target then or_text request.note gap.resolution else gap.resolution;
      evidence_ref = or_text request.evidence_ref gap.evidence_ref;
      updated_at = now;
      resolution_type =
          if resolved
          then or_text request.resolution_type "manually_verified"
          else gap.resolution_type;
      verifier = if resolved then actor else gap.verifier;
      verified_at = if resolved then now else gap.verified_at;
      verifying_scan = if resolved then request.verifying_scan else gap.verifying_scan;
      history =
          gap.history
          ++ (record {
            ts = now;
            actor = actor;
            action = "transition";
            to = target;
            note = request.note;
            resolution_type = if resolved then request.resolution_type else "";
          }
              ∷ []);
    }

pub data GapReply : Type 0 where
  not_found : GapReply
  bad_target : GapReply
  refused : String → String → GapReply
  bad_resolution : GapReply
  moved : Gap → GapReply

abbrev pub unknown_resolution : GapRequest → Bool
unknown_resolution request =
    request.target == "resolved"
    && not (request.resolution_type == "")
    && not (contains resolution_types request.resolution_type)

-- The tests of the handler in its order.
abbrev pub gap_reply : Gap → GapRequest → String → String → GapReply
gap_reply gap request actor now =
    if not (contains gap_statuses request.target)
    then bad_target
    else if not (can_move gap.status request.target)
    then refused gap.status request.target
    else if unknown_resolution request
    then bad_resolution
    else moved (move_gap gap request actor now)

-- The gaps of the repository are by identity.
unfoldable pub gap_transition : Dict Gap → String → GapRequest → String → String → GapReply
unfolding can_move move_gap
gap_transition gaps gap_id request actor now = elim (get gaps gap_id) [
  | none ↦ not_found
  | some gap ↦ gap_reply gap request actor now
]

-- The repository after a request: `save_gap` on the way that moves the gap.
unfoldable pub save_moved : Dict Gap → String → GapReply → Dict Gap
save_moved gaps gap_id (moved gap) = put gaps gap_id gap
save_moved gaps gap_id _ = gaps
