-- ===== src/Governance/Migration.antt =====
-- src/mori_soc/services/control_governance.py: `plan_cycle_migration`, the carrying over of an
-- assurance cycle to a new framework version.
pub mod Conservation
pub mod Reset
pub mod Coverage
pub mod Planned
pub mod Fates
use mori_soc.Prelude.{
  ℕ, ◌+◌, String, ◌<>◌, Bool, true, false, ◌==◌, if◌then◌else◌, List, [], ◌∷◌, ◌++◌, map, Option,
  none, some, or_text, contains, select,
}
use mori_soc.Prelude.Dict.{Dict, get, index_by}
use mori_soc.Governance.Cycle.{CycleControl, build_cycle_control}
use mori_soc.Governance.Definitions.{
  ControlDefinition, control_uid_of, migration_reason, AddedRow, row_of,
}

unfoldable pub carry_cycle_control :
    CycleControl → String → String → Bool → String → String → String → CycleControl
unfolding build_cycle_control
carry_cycle_control prev new_ref reason review new_cycle_id now created_by =
    let cc =
      build_cycle_control new_cycle_id new_ref prev.assignee
        (or_text prev.applicability "pending_assessment") now created_by in
    record cc {
      evidence_contract_ref = prev.evidence_contract_ref;
      evidence_status = "missing";
      assessment_status = "not_assessed";
      applicability_pending_review = true;
      carried_from_control_ref = prev.control_ref;
      carried_from = prev.id;
      migration_reason = reason;
      requires_design_review = review;
      history =
          cc.history
          ++ record {
            ts = now;
            actor = created_by;
            action = "migrated";
            changed = [];
            note = reason <> " — 승계: 담당자·적용성 / 초기화: 증적·평가";
          }
            ∷ [];
    }

-- A control for a definition that no previous control is linked to.
unfoldable pub new_control : ControlDefinition → String → String → String → CycleControl
unfolding build_cycle_control
new_control d new_cycle_id now created_by =
    let cc = build_cycle_control new_cycle_id d.id "" "pending_assessment" now created_by in
    record cc {
      migration_reason = "new";
      requires_design_review = true;
      history =
          cc.history
          ++ record {
            ts = now;
            actor = created_by;
            action = "new_control";
            changed = [];
            note = "신규 통제 — 설계·적용성 검토 필요";
          }
            ∷ [];
    }

pub record RemovedControl : Type 0 where
  pub row : AddedRow
  pub old_ref : String

-- The variables of the two loops.
pub record Plan : Type 0 where
  pub controls : List CycleControl
  pub removed : List RemovedControl
  pub carried : ℕ
  pub renumbered : ℕ
  pub text_changed : ℕ
  pub new_controls : ℕ
  pub removed_controls : ℕ
  pub unresolved_mappings : ℕ
  pub carried_uids : List String

abbrev pub empty_plan : Plan
empty_plan = record {
  controls = [];
  removed = [];
  carried = 0;
  renumbered = 0;
  text_changed = 0;
  new_controls = 0;
  removed_controls = 0;
  unresolved_mappings = 0;
  carried_uids = [];
}

-- `old_by_id`
abbrev pub index_by_id : List ControlDefinition → Dict ControlDefinition
index_by_id = index_by (λ (c : ControlDefinition). c.id)

module _ (new_cycle_id now created_by : String) where
  -- The previous control's definition is none of the old version's: it is carried as it is.
  unfoldable pub keep_control : CycleControl → Plan → Plan
  keep_control prev p = record p {
    controls =
        p.controls
        ++ carry_cycle_control prev prev.control_ref "carried" false new_cycle_id now created_by
          ∷ [];
    carried = p.carried + 1;
  }

  -- The definition has no successor.
  unfoldable pub drop_control : CycleControl → ControlDefinition → Plan → Plan
  drop_control prev old p = record p {
    removed =
        p.removed
        ++ record { row = row_of (control_uid_of old) old; old_ref = prev.control_ref } ∷ [];
    removed_controls = p.removed_controls + 1;
    unresolved_mappings = p.unresolved_mappings + 1;
  }

  unfoldable pub move_control : CycleControl → ControlDefinition → ControlDefinition → Plan → Plan
  move_control prev old new p =
      let reason = migration_reason old new in
      record p {
        carried_uids = control_uid_of old ∷ p.carried_uids;
        controls =
            p.controls
            ++ carry_cycle_control prev new.id reason (reason == "text_changed") new_cycle_id now
                created_by
              ∷ [];
        carried = p.carried + 1;
        renumbered = if reason == "renumbered" then p.renumbered + 1 else p.renumbered;
        text_changed = if reason == "text_changed" then p.text_changed + 1 else p.text_changed;
      }

  unfoldable pub migrate_defined :
      Option ControlDefinition → CycleControl → ControlDefinition → Plan → Plan
  unfolding drop_control move_control
  migrate_defined none prev old p = drop_control prev old p
  migrate_defined (some new) prev old p = move_control prev old new p

  unfoldable pub migrate_step :
      Option ControlDefinition → Dict ControlDefinition → CycleControl → Plan → Plan
  unfolding keep_control migrate_defined
  migrate_step none new_by_uid prev p = keep_control prev p
  migrate_step (some old) new_by_uid prev p =
      migrate_defined (get new_by_uid (control_uid_of old)) prev old p

  unfoldable pub migrate_loop :
      Dict ControlDefinition → Dict ControlDefinition → List CycleControl → Plan → Plan
  unfolding migrate_step
  migrate_loop old_by_id new_by_uid [] p = p
  migrate_loop old_by_id new_by_uid (prev ∷ r) p =
      migrate_loop old_by_id new_by_uid r
        (migrate_step (get old_by_id prev.control_ref) new_by_uid prev p)

  unfoldable pub add_step : String → ControlDefinition → Plan → Plan
  add_step uid d p = if contains p.carried_uids uid then p else record p {
    controls = p.controls ++ new_control d new_cycle_id now created_by ∷ [];
    new_controls = p.new_controls + 1;
  }

  unfoldable pub add_loop : Dict ControlDefinition → Plan → Plan
  unfolding add_step
  add_loop [] p = p
  add_loop ((uid, d) ∷ r) p = add_loop r (add_step uid d p)

  unfoldable pub plan_cycle_migration :
      List CycleControl → List ControlDefinition → List ControlDefinition → Plan
  unfolding migrate_loop add_loop
  plan_cycle_migration prevs old_controls new_controls =
      let new_by_uid = index_by control_uid_of new_controls in
      add_loop new_by_uid (migrate_loop (index_by_id old_controls) new_by_uid prevs empty_plan)

-- `changed_controls_requiring_review`
unfoldable pub requiring_review : Plan → List String
requiring_review p =
    map (λ (c : CycleControl). c.control_ref)
      (select (λ (c : CycleControl). c.requires_design_review) p.controls)
