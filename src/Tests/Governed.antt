-- ===== src/Tests/Governed.antt =====
-- Cycle controls, audits, migrations and versions at concrete inputs.
use mori_soc.Prelude.{
  length, All, contains, text_lt, show_nat, ◌+◌, ◌≤◌, String, ◌≡◌, refl, true, none, some, List, [],
  ◌∷◌, map,
}
use mori_soc.Prelude.Dict.{get, put, index_onto}
use mori_soc.Governance.Cycle.{
  text, CycleControl, Change, build_cycle_control, cycle_control_as_of, carry_forward,
}
use mori_soc.Governance.Cycle.Replay.{run_updates, Shows, as_of-run_updates}
use mori_soc.Governance.Audit.{Cycle, build_cycle_audit_snapshot, audit_snapshot_reproducible}
use mori_soc.Governance.Definitions.{ControlDefinition}
use mori_soc.Governance.Migration.{plan_cycle_migration}
use mori_soc.Governance.Migration.Conservation.{Accounts}
use mori_soc.Governance.Migration.Planned.{IsPlanned, linked_uids, migration-IsPlanned}
use mori_soc.Governance.Migration.Fates.{Settles, migration-Settles}
use mori_soc.Governance.Migration.{index_by_id}
use mori_soc.Governance.Definitions.{control_uid_of}
use mori_soc.Prelude.Dict.{index_by}
use mori_soc.Governance.Migration.Reset.{as_of-carry_forward_contract}
use mori_soc.Governance.Migration.Coverage.{migration-covers, refs}
use mori_soc.Governance.Lifecycle
use mori_soc.Governance.Lifecycle.States

abbrev first_review : Change
first_review = record {
  actor = "kim";
  now = "2025-03-01";
  evidence_status = "available";
  assessment_status = "effective";
  applicability = "";
  assignee = "park";
  note = "";
  evidence_set_hash = "e1";
  rationale = "tested";
  scope_snapshot_id = "s1";
}

abbrev late_change : Change
late_change = record {
  actor = "choi";
  now = "2025-09-01";
  evidence_status = "stale";
  assessment_status = "ineffective";
  applicability = "applicable";
  assignee = "";
  note = "expired";
  evidence_set_hash = "e2";
  rationale = "";
  scope_snapshot_id = "s2";
}

-- A control of the cycle of 2025.
abbrev control : CycleControl
control = build_cycle_control "2025" "isms:1.1" "lee" "pending_assessment" "2025-01-02" "lee"

abbrev cycle_2025 : Cycle
cycle_2025 = record {
  id = "2025";
  name = "ISMS 2025";
  framework_version_id = "isms:1";
  scope_snapshot_id = "s1";
}

abbrev definition : String → String → String → ControlDefinition
definition id uid title = record {
  id = id;
  control_uid = uid;
  display_code = uid;
  title = title;
  requirement_text = "";
  interpretations = record {
    official = "";
    mori_summary = "";
    org_interpretation = "";
    operation_guide = "";
  };
}

abbrev old_controls : List ControlDefinition
old_controls =
    definition "isms:1.1" "access" "Access" ∷ definition "isms:1.2" "backup" "Backup" ∷ []

abbrev new_controls : List ControlDefinition
new_controls =
    definition "isms2:1.1" "access" "Access, reworded" ∷ definition "isms2:3" "cloud" "Cloud" ∷ []

as_of-run_updates_example :
    let cc =
      run_updates
        (build_cycle_control "2025" "isms:1.1" "lee" "pending_assessment" "2025-01-02" "lee")
        (first_review ∷ late_change ∷ []) in
    Shows (cycle_control_as_of cc "2025-12-31") cc
unfolding text_lt
as_of-run_updates_example =
    as_of-run_updates "2025-12-31" "2025" "isms:1.1" "lee" "pending_assessment" "2025-01-02" "lee"
      (first_review ∷ late_change ∷ []) refl (refl, (refl, tt))

audit_snapshot_reproducible_example :
    build_cycle_audit_snapshot cycle_2025
      (map (λ cc. run_updates cc (late_change ∷ [])) (control ∷ []))
      "2025-06-30"
      none
    ≡ build_cycle_audit_snapshot cycle_2025 (control ∷ []) "2025-06-30" none
unfolding text_lt
audit_snapshot_reproducible_example =
    audit_snapshot_reproducible cycle_2025 none "2025-06-30" (λ cc. late_change ∷ []) (control ∷ [])
      ((refl, tt), tt)

migration-Settles_example :
    let p =
      plan_cycle_migration "2026" "2026-01-02" "lee" (control ∷ []) old_controls new_controls in
    Settles (index_by_id old_controls) (index_by control_uid_of new_controls) (control ∷ []) p
    × Accounts (length (control ∷ [])) p
migration-Settles_example =
    migration-Settles "2026" "2026-01-02" "lee" (control ∷ []) old_controls new_controls

migration-IsPlanned_example :
    let old_by = index_by_id old_controls in
    All
      (IsPlanned old_by (index_by control_uid_of new_controls) (linked_uids old_by (control ∷ [])))
      (plan_cycle_migration "2026" "2026-01-02" "lee"
        (control ∷ [])
        old_controls
        new_controls).controls
migration-IsPlanned_example =
    migration-IsPlanned "2026" "2026-01-02" "lee" (control ∷ []) old_controls new_controls

migration-covers_example :
    contains
      (refs
        (plan_cycle_migration "2026" "2026-01-02" "lee"
          (control ∷ [])
          old_controls
          new_controls).controls)
      "isms2:3"
    ≡ true
unfolding put get index_onto
migration-covers_example =
    migration-covers "2026" "2026-01-02" "lee" (control ∷ []) old_controls new_controls "cloud"
      (definition "isms2:3" "cloud" "Cloud") refl

as_of-carry_forward_contract_example :
    get
      (cycle_control_as_of
        (carry_forward "2026" "2026-01-02" "lee" (record control { evidence_contract_ref = "c-7" }))
        "2026-06-30")
      "evidence_contract_ref"
    ≡ some (text "")
unfolding text_lt
as_of-carry_forward_contract_example =
    as_of-carry_forward_contract "2026" "2026-01-02" "lee" "2026-06-30"
      (record control { evidence_contract_ref = "c-7" }) refl

abbrev drafted : Lifecycle.Record
drafted = ("status", Lifecycle.str "draft") ∷ []

abbrev life : List States.Transition
life =
    record { target = "active"; actor = "lee"; now = "2025-01-01" }
    ∷ record { target = "retired"; actor = "lee"; now = "2026-01-01" }
    ∷ []

transit_all_lem_example :
    (States.rank (States.status_of (States.transit_all drafted life))
      ≡ States.rank (States.status_of drafted) + length life)
    × (States.rank (States.status_of drafted) + length life ≤ 2)
unfolding Lifecycle.can_version_transition Lifecycle.apply_version_lifecycle get put
transit_all_lem_example = States.transit_all_lem drafted life (refl, (refl, tt))

-- A hash that shows how many fields it saw.
abbrev digest : Lifecycle.Record → String
digest r = show_nat (length r)

abbrev stamped : Lifecycle.Record
stamped =
    ("version", Lifecycle.str "1")
    ∷ ("status", Lifecycle.str "draft")
    ∷ (
      "content_hash",
      Lifecycle.str (Lifecycle.content_hash digest (("version", Lifecycle.str "1") ∷ [])),
    )
    ∷ []
