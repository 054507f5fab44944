-- ===== src/Governance/Migration/Reset.antt =====
-- No judgment of the last cycle is carried into a new one.
use mori_soc.Prelude.{
  String, ◌≡◌, refl, true, false, List, [], some, Pairs, Pairs-map, or_text, text_lt,
}
use mori_soc.Prelude.Dict.{get, update, put}
use mori_soc.Governance.Cycle.{
  CycleControl, text, carry_forward, initialize_cycle_from_previous, replay, cycle_control_as_of,
}

-- Nothing is judged yet.
pub record IsFresh (c : CycleControl) : Type 0 where
  pub no_evidence : c.evidence_status ≡ "missing"
  pub no_judgment : c.assessment_status ≡ "not_assessed"
  pub no_assessments : c.assessments ≡ []

-- What a carried control has of its predecessor.
pub record Carries (prev c : CycleControl) : Type 0 where
  pub fresh : IsFresh c
  pub same_ref : c.control_ref ≡ prev.control_ref
  pub same_assignee : c.assignee ≡ prev.assignee
  pub same_applicability : c.applicability ≡ or_text prev.applicability "pending_assessment"
  pub same_contract : c.evidence_contract_ref ≡ prev.evidence_contract_ref
  pub reconfirm : c.applicability_pending_review ≡ true
  pub lineage : c.carried_from ≡ prev.id

carry_forward-Carries :
    (new_cycle_id now created_by : String) (prev : CycleControl)
    → Carries prev (carry_forward new_cycle_id now created_by prev)
unfolding carry_forward
carry_forward-Carries new_cycle_id now created_by prev = record {
  fresh = record { no_evidence = refl; no_judgment = refl; no_assessments = refl };
  same_ref = refl;
  same_assignee = refl;
  same_applicability = refl;
  same_contract = refl;
  reconfirm = refl;
  lineage = refl;
}

-- A new cycle has one control for each previous one, in order, with its reference, assignee,
-- applicability (marked to be confirmed again) and evidence contract, and with no evidence,
-- judgment or assessment.
pub initialize-Pairs :
    (prevs : List CycleControl) (new_cycle_id now created_by : String)
    → Pairs Carries prevs
        (initialize_cycle_from_previous prevs new_cycle_id now created_by).cycle_controls
unfolding initialize_cycle_from_previous
initialize-Pairs prevs new_cycle_id now created_by =
    Pairs-map Carries _ (carry_forward-Carries new_cycle_id now created_by) prevs

-- The replay of a carried control shows an empty evidence contract at every date from its creation
-- on, whatever contract it was carried with.
pub as_of-carry_forward_contract :
    (new_cycle_id now created_by as_of : String) (prev : CycleControl)
    → text_lt as_of now ≡ false
    → get
        (cycle_control_as_of (carry_forward new_cycle_id now created_by prev) as_of)
        "evidence_contract_ref"
      ≡ some (text "")
unfolding carry_forward cycle_control_as_of replay update get put
as_of-carry_forward_contract new_cycle_id now created_by as_of prev h = rw h
