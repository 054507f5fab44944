-- ===== src/Governance/Audit.antt =====
-- src/mori_soc/services/control_governance.py: `build_cycle_audit_snapshot`, the state of a cycle at
-- an audit date.
use mori_soc.Prelude.{
  ℕ, String, ◌≡◌, refl, ◌∙◌, true, List, [], ◌∷◌, map, Option, none, some, arith, All, length,
  length-map, or_text, text_lt, count_if, ◌==◌,
}
use mori_soc.Prelude.Dict.{Dict, get, values}
use mori_soc.Prelude.Tally.{tally_onto, count_of, count_of-tally_onto, total, total-tally_onto}
use mori_soc.Governance.Cycle.{Value, text, CycleControl, Change, cycle_control_as_of}
use mori_soc.Governance.Cycle.Replay.{run_updates, as_of-run_updates_later, same_identity}

pub record Cycle : Type 0 where
  pub id : String
  pub name : String
  pub framework_version_id : String
  pub scope_snapshot_id : String

-- One control as the audit shows it: its id and reference, with the replayed state.
pub record AuditRow : Type 0 where
  pub cycle_control_id : String
  pub control_ref : String
  pub state : Dict Value

pub record AuditSnapshot : Type 0 where
  pub cycle_id : String
  pub cycle_name : String
  pub framework_version_id : String
  pub as_of : String
  pub control_count : ℕ
  pub evidence_status_counts : Dict ℕ
  pub assessment_status_counts : Dict ℕ
  pub scope_snapshot_id : String
  pub controls : List AuditRow

-- `state[k]`, a text in every replayed state
abbrev text_at : Dict Value → String → String
text_at state k = elim (get state k) [ some (text s) ↦ s | _ ↦ "" ]

abbrev audit_row : String → CycleControl → AuditRow
audit_row as_of cc = record {
  cycle_control_id = cc.id;
  control_ref = cc.control_ref;
  state = cycle_control_as_of cc as_of;
}

abbrev pub status_of : String → AuditRow → String
status_of k r = text_at r.state k

unfoldable pub build_cycle_audit_snapshot :
    Cycle → List CycleControl → String → Option String → AuditSnapshot
build_cycle_audit_snapshot cycle cycle_controls as_of scope_snapshot =
    let controls = map (audit_row as_of) cycle_controls in
    record {
      cycle_id = cycle.id;
      cycle_name = cycle.name;
      framework_version_id = cycle.framework_version_id;
      as_of = as_of;
      control_count = length controls;
      evidence_status_counts = tally_onto [] (map (status_of "evidence_status") controls);
      assessment_status_counts = tally_onto [] (map (status_of "assessment_status") controls);
      scope_snapshot_id = elim scope_snapshot [
        | none ↦ cycle.scope_snapshot_id
        | some s ↦ or_text s cycle.scope_snapshot_id
      ];
      controls = controls;
    }

module _ (cycle : Cycle) (scope : Option String) (as_of : String) where
  audit_row-later :
      (updates : CycleControl → List Change) (ccs : List CycleControl)
      → All
          (λ (cc : CycleControl). All (λ (c : Change). text_lt as_of c.now ≡ true) (updates cc))
          ccs
      → map (audit_row as_of) (map (λ cc. run_updates cc (updates cc)) ccs)
        ≡ map (audit_row as_of) ccs
  audit_row-later updates [] all = refl
  audit_row-later updates (cc ∷ ccs) all =
      rw (audit_row-later updates ccs all.1, as_of-run_updates_later as_of cc (updates cc) all.0)
        (rw ((same_identity cc (updates cc)).0, (same_identity cc (updates cc)).1))

  -- A snapshot for an audit date can be made again later: updates that are all dated after the audit
  -- date, of any of the controls, leave the whole snapshot as it was.
  pub audit_snapshot_reproducible :
      (updates : CycleControl → List Change) (ccs : List CycleControl)
      → All
          (λ (cc : CycleControl). All (λ (c : Change). text_lt as_of c.now ≡ true) (updates cc))
          ccs
      → build_cycle_audit_snapshot cycle (map (λ cc. run_updates cc (updates cc)) ccs) as_of scope
        ≡ build_cycle_audit_snapshot cycle ccs as_of scope
  unfolding build_cycle_audit_snapshot
  audit_snapshot_reproducible updates ccs all = rw (audit_row-later updates ccs all)

  -- In a snapshot each status is counted as often as a control shows it, and each of the two kinds of
  -- count sums to the number of controls.
  pub audit_snapshot_counts :
      (ccs : List CycleControl) (s : String)
      → let a = build_cycle_audit_snapshot cycle ccs as_of scope in
        (count_of a.evidence_status_counts s
          ≡ count_if (λ k. k == s) (map (status_of "evidence_status") a.controls))
        × (count_of a.assessment_status_counts s
            ≡ count_if (λ k. k == s) (map (status_of "assessment_status") a.controls))
        × (total (values a.evidence_status_counts) ≡ length ccs)
        × (total (values a.assessment_status_counts) ≡ length ccs)
  unfolding build_cycle_audit_snapshot get
  audit_snapshot_counts ccs s =
      let rows = map (audit_row as_of) ccs in
      (
        count_of-tally_onto [] (map (status_of "evidence_status") rows) s ∙ omega arith,
        count_of-tally_onto [] (map (status_of "assessment_status") rows) s ∙ omega arith,
        omega (
          arith,
          total-tally_onto [] (map (status_of "evidence_status") rows),
          length-map (status_of "evidence_status") rows,
          length-map (audit_row as_of) ccs,
        ),
        omega (
          arith,
          total-tally_onto [] (map (status_of "assessment_status") rows),
          length-map (status_of "assessment_status") rows,
          length-map (audit_row as_of) ccs,
        ),
      )
