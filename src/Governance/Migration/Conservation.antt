-- ===== src/Governance/Migration/Conservation.antt =====
-- The counts of a migration.
use mori_soc.Prelude.{
  ℕ, suc, ◌+◌, ◌≤◌, String, ◌≡◌, List, [], ◌∷◌, ◌++◌, Option, none, some, arith, length,
  length-append, contains, ◌⊎◌, Option-cases, Bool-cases, inl, inr,
}
use native.Mathlib.Nat.{add-zero, add-suc, suc-add, zero-add}
use mori_soc.Prelude.Dict.{Dict, get, index_by}
use mori_soc.Governance.Cycle.{CycleControl}
use mori_soc.Governance.Definitions.{ControlDefinition, control_uid_of, migration_reason}
use mori_soc.Governance.Migration.{
  Plan, keep_control, drop_control, move_control, migrate_step, migrate_loop, add_step, add_loop,
  plan_cycle_migration, empty_plan, index_by_id,
}

-- The counts of a plan after `n` previous controls.
pub record Accounts (n : ℕ) (p : Plan) : Type 0 where
  pub all_handled : p.carried + p.removed_controls ≡ n
  pub all_planned : length p.controls ≡ p.carried + p.new_controls
  pub removed_listed : length p.removed ≡ p.removed_controls
  pub removed_unresolved : p.unresolved_mappings ≡ p.removed_controls
  pub kinds_carried : p.renumbered + p.text_changed ≤ p.carried

length-snoc : {A : Type 0} (xs : List A) (x : A) → length (xs ++ x ∷ []) ≡ suc (length xs)
length-snoc xs x = omega (arith, length-append xs (x ∷ []))

pub reason_cases :
    (old new : ControlDefinition)
    → (migration_reason old new ≡ "text_changed")
      ⊎ ((migration_reason old new ≡ "renumbered") ⊎ (migration_reason old new ≡ "carried"))
unfolding migration_reason
reason_cases old new = ground arith

module _ (new_cycle_id now created_by : String) where
  keep-Accounts :
      (n : ℕ) (prev : CycleControl) (p : Plan)
      → Accounts n p
      → Accounts (suc n) (keep_control new_cycle_id now created_by prev p)
  unfolding keep_control
  keep-Accounts n prev p h = grind (arith, length-snoc)

  drop-Accounts :
      (n : ℕ) (prev : CycleControl) (old : ControlDefinition) (p : Plan)
      → Accounts n p
      → Accounts (suc n) (drop_control new_cycle_id now created_by prev old p)
  unfolding drop_control
  drop-Accounts n prev old p h = grind (arith, length-snoc)

  move-Accounts :
      (n : ℕ) (prev : CycleControl) (old new : ControlDefinition) (p : Plan)
      → Accounts n p
      → Accounts (suc n) (move_control new_cycle_id now created_by prev old new p)
  unfolding move_control
  move-Accounts n prev old new p h = elim (reason_cases old new) [
    | inl e ↦ rw e (grind (arith, length-snoc))
    | inr (inl e) ↦ rw e (grind (arith, length-snoc))
    | inr (inr e) ↦ rw e (grind (arith, length-snoc))
  ]

  step-Accounts :
      (n : ℕ) (old : Option ControlDefinition) (new_by_uid : Dict ControlDefinition)
      (prev : CycleControl) (p : Plan)
      → Accounts n p
      → Accounts (suc n) (migrate_step new_cycle_id now created_by old new_by_uid prev p)
  unfolding migrate_step
  step-Accounts n none new_by_uid prev p h = keep-Accounts n prev p h
  step-Accounts n (some old) new_by_uid prev p h =
      elim (Option-cases (get new_by_uid (control_uid_of old))) [
        | inl e ↦ rw e (drop-Accounts n prev old p h)
        | inr (new, e) ↦ rw e (move-Accounts n prev old new p h)
      ]

  loop-Accounts :
      (n : ℕ) (old_by_id new_by_uid : Dict ControlDefinition) (prevs : List CycleControl) (p : Plan)
      → Accounts n p
      → Accounts
          (n + length prevs)
          (migrate_loop new_cycle_id now created_by old_by_id new_by_uid prevs p)
  unfolding migrate_loop
  loop-Accounts n old_by_id new_by_uid [] p h = rw add-zero h
  loop-Accounts n old_by_id new_by_uid (prev ∷ r) p h =
      rw (add-suc, ← suc-add)
        (loop-Accounts (suc n) old_by_id new_by_uid r _
          (step-Accounts n (get old_by_id prev.control_ref) new_by_uid prev p h))

  add-Accounts :
      (n : ℕ) (uid : String) (d : ControlDefinition) (p : Plan)
      → Accounts n p
      → Accounts n (add_step new_cycle_id now created_by uid d p)
  unfolding add_step
  add-Accounts n uid d p h = elim (Bool-cases (contains p.carried_uids uid)) [
    | inl e ↦ rw e h
    | inr e ↦ rw e (grind (arith, length-snoc))
  ]

  add_loop-Accounts :
      (n : ℕ) (new_by_uid : Dict ControlDefinition) (p : Plan)
      → Accounts n p
      → Accounts n (add_loop new_cycle_id now created_by new_by_uid p)
  unfolding add_loop
  add_loop-Accounts n [] p h = h
  add_loop-Accounts n ((uid, d) ∷ r) p h = add_loop-Accounts n r _ (add-Accounts n uid d p h)

  -- The counts of a migration add up: the carried and the removed controls to the previous ones, and the
  -- carried and the new ones to the planned ones.
  pub migration-Accounts :
      (prevs : List CycleControl) (old_controls new_controls : List ControlDefinition)
      → Accounts
          (length prevs)
          (plan_cycle_migration new_cycle_id now created_by prevs old_controls new_controls)
  unfolding plan_cycle_migration
  migration-Accounts prevs old_controls new_controls =
      let new_by_uid = index_by control_uid_of new_controls in
      let p =
        migrate_loop new_cycle_id now created_by (index_by_id old_controls) new_by_uid prevs
          empty_plan in
      let h : Accounts (0 + length prevs) p =
        loop-Accounts 0 _ new_by_uid prevs empty_plan (omega arith) in
      add_loop-Accounts (length prevs) new_by_uid p (rw zero-add at h)
