-- ===== src/Governance/Cycle.antt =====
-- src/mori_soc/services/control_governance.py: the control instances of an assurance cycle, their
-- updates, the replay of their history, and the creation of a new cycle from the last one.
pub mod Replay
pub mod Updates
use mori_soc.Prelude.{
  ℕ, ◌+◌, String, ◌<>◌, Bool, true, false, not, ◌&&◌, ◌==◌, if◌then◌else◌, List, [], ◌∷◌, ◌++◌, map,
  length, or_text, contains, text_lt, slug,
}
use mori_soc.Prelude.Dict.{Dict, get, is_some, put, update}

-- A value of the `changed` dict of a history entry.
pub data Value : Type 0 where
  text : String → Value
  flag : Bool → Value

pub record Entry : Type 0 where
  pub ts : String
  pub actor : String
  pub action : String
  pub changed : Dict Value
  pub note : String

pub record Assessment : Type 0 where
  pub assessment_version : ℕ
  pub status : String
  pub evidence_set_hash : String
  pub assessed_by : String
  pub assessed_at : String
  pub rationale : String
  pub scope_snapshot_id : String

-- A key that a record lacks reads as the empty text, `false`, or the empty list.
pub record CycleControl : Type 0 where
  pub id : String
  pub cycle_id : String
  pub control_ref : String
  pub assignee : String
  pub applicability : String
  pub evidence_status : String
  pub assessment_status : String
  pub evidence_contract_ref : String
  pub created_at : String
  pub created_by : String
  pub updated_at : String
  pub history : List Entry
  pub applicability_pending_review : Bool
  pub assessments : List Assessment
  pub was_changed : Bool
  pub carried_from : String
  pub carried_from_control_ref : String
  pub migration_reason : String
  pub requires_design_review : Bool

-- The dict `initial`.
abbrev pub initial_values : String → String → Dict Value
initial_values assignee applicability =
    ("assignee", text assignee)
    ∷ ("applicability", text applicability)
    ∷ ("evidence_status", text "missing")
    ∷ ("assessment_status", text "not_assessed")
    ∷ ("evidence_contract_ref", text "")
    ∷ []

unfoldable pub build_cycle_control :
    String → String → String → String → String → String → CycleControl
build_cycle_control cycle_id control_ref assignee applicability now created_by = record {
  id = slug cycle_id <> ":" <> slug control_ref;
  cycle_id = cycle_id;
  control_ref = control_ref;
  assignee = assignee;
  applicability = applicability;
  evidence_status = "missing";
  assessment_status = "not_assessed";
  evidence_contract_ref = "";
  created_at = now;
  created_by = created_by;
  updated_at = now;
  history =
      record {
        ts = now;
        actor = created_by;
        action = "created";
        changed = initial_values assignee applicability;
        note = "";
      }
      ∷ [];
  applicability_pending_review = false;
  assessments = [];
  was_changed = false;
  carried_from = "";
  carried_from_control_ref = "";
  migration_reason = "";
  requires_design_review = false;
}

-- The states in which an assessment has come to a judgment.
abbrev pub assessment_judgments : List String
assessment_judgments =
    "design_deficient" ∷ "implemented" ∷ "operating" ∷ "ineffective" ∷ "effective"
    ∷ "exception_approved" ∷ "remediation_required" ∷ []

-- The keyword arguments of an update.
pub record Change : Type 0 where
  pub actor : String
  pub now : String
  pub evidence_status : String
  pub assessment_status : String
  pub applicability : String
  pub assignee : String
  pub note : String
  pub evidence_set_hash : String
  pub rationale : String
  pub scope_snapshot_id : String

-- `if val and cc.get(field) != val`
abbrev pub differs : String → String → Bool
differs val old = not (val == "") && not (old == val)

-- One round of the loop over the four fields: the field's new value, and the dict of changes.
unfoldable pub new_value : String → String → String
new_value val old = if differs val old then val else old

unfoldable pub note_change : String → String → String → Dict Value → Dict Value
note_change field val old changed =
    if differs val old then put changed field (text val) else changed

-- The dict `changed` after the loop, and after the review flag is cleared.
unfoldable pub field_changes : CycleControl → Change → Dict Value
field_changes cc c = note_change "assignee" c.assignee cc.assignee (
    note_change "applicability" c.applicability cc.applicability (
      note_change "assessment_status" c.assessment_status cc.assessment_status
        (note_change "evidence_status" c.evidence_status cc.evidence_status [])))

abbrev pub confirms_applicability : CycleControl → Change → Bool
confirms_applicability cc c = not (c.applicability == "") && cc.applicability_pending_review

unfoldable pub all_changes : CycleControl → Change → Dict Value
all_changes cc c =
    let changed = field_changes cc c in
    if confirms_applicability cc c
    then put changed "applicability_pending_review" (flag false)
    else changed

abbrev pub is_judgment : CycleControl → Change → Bool
is_judgment cc c =
    contains assessment_judgments c.assessment_status
    && is_some (get (all_changes cc c) "assessment_status")

unfoldable pub judged : CycleControl → Change → List Assessment
judged cc c =
    if is_judgment cc c
    then cc.assessments
      ++ (record {
        assessment_version = length cc.assessments + 1;
        status = c.assessment_status;
        evidence_set_hash = c.evidence_set_hash;
        assessed_by = c.actor;
        assessed_at = c.now;
        rationale = c.rationale;
        scope_snapshot_id = c.scope_snapshot_id;
      }
          ∷ [])
    else cc.assessments

abbrev pub is_empty {ℓ} : {A : Type ℓ} → List A → Bool
is_empty [] = true
is_empty (_ ∷ _) = false

abbrev pub update_entry : CycleControl → Change → Entry
update_entry cc c = record {
  ts = c.now;
  actor = c.actor;
  action = "update";
  changed = all_changes cc c;
  note = c.note;
}

-- The fields that are written before the test for no change.
unfoldable pub write_fields : CycleControl → Change → CycleControl
write_fields cc c = record cc {
  evidence_status = new_value c.evidence_status cc.evidence_status;
  assessment_status = new_value c.assessment_status cc.assessment_status;
  applicability = new_value c.applicability cc.applicability;
  assignee = new_value c.assignee cc.assignee;
  applicability_pending_review =
      if confirms_applicability cc c then false else cc.applicability_pending_review;
  assessments = judged cc c;
}

-- `not changed and not note`
abbrev pub is_noop : CycleControl → Change → Bool
is_noop cc c = is_empty (all_changes cc c) && c.note == ""

unfoldable pub apply_cycle_control_update : CycleControl → Change → CycleControl
unfolding write_fields
apply_cycle_control_update cc c =
    if is_noop cc c
    then record (write_fields cc c) { was_changed = false }
    else record (write_fields cc c) {
      updated_at = c.now;
      history = cc.history ++ update_entry cc c ∷ [];
      was_changed = true;
    }

-- The loop of `cycle_control_as_of`: it stops at the first entry later than `as_of`.
unfoldable pub replay : List Entry → String → Dict Value → Dict Value
replay [] as_of state = state
replay (h ∷ r) as_of state =
    let rest = replay r as_of (update state h.changed) in if text_lt as_of h.ts then state else rest

abbrev pub blank_state : Dict Value
blank_state =
    ("evidence_status", text "missing")
    ∷ ("assessment_status", text "not_assessed")
    ∷ ("applicability", text "pending_assessment")
    ∷ ("assignee", text "")
    ∷ []

unfoldable pub cycle_control_as_of : CycleControl → String → Dict Value
unfolding replay
cycle_control_as_of cc as_of = put (replay cc.history as_of blank_state) "as_of" (text as_of)

-- One previous control carried into a new cycle, by `initialize_cycle_from_previous`.
unfoldable pub carry_forward : String → String → String → CycleControl → CycleControl
unfolding build_cycle_control
carry_forward new_cycle_id now created_by prev =
    let cc =
      build_cycle_control new_cycle_id prev.control_ref prev.assignee
        (or_text prev.applicability "pending_assessment") now created_by in
    record cc {
      evidence_contract_ref = prev.evidence_contract_ref;
      evidence_status = "missing";
      assessment_status = "not_assessed";
      applicability_pending_review = true;
      carried_from = prev.id;
      history =
          cc.history
          ++ record {
            ts = now;
            actor = created_by;
            action = "carried_from_previous";
            changed = [];
            note = "승계: 담당자·적용성(재확인 필요) / 초기화: 증적·평가";
          }
            ∷ [];
    }

pub record NewCycle : Type 0 where
  pub new_cycle_id : String
  pub carried : ℕ
  pub cycle_controls : List CycleControl

unfoldable pub initialize_cycle_from_previous :
    List CycleControl → String → String → String → NewCycle
initialize_cycle_from_previous prevs new_cycle_id now created_by =
    let new_controls = map (carry_forward new_cycle_id now created_by) prevs in
    record {
      new_cycle_id = new_cycle_id;
      carried = length new_controls;
      cycle_controls = new_controls;
    }
