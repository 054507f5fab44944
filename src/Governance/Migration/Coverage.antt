-- ===== src/Governance/Migration/Coverage.antt =====
-- A migration leaves out no control of the new version.
use mathlib.Core.Bool.{false≢true}
use mathlib.Core.Option.{none-ne-some, some-injective}
use mori_soc.Prelude.{
  String, ◌≡◌, refl, sym, ◌∙◌, true, ◌||◌, List, [], ◌∷◌, ◌++◌, Option, none, some, arith, contains,
  Option-cases, Bool-cases, inl, inr, ◌==◌, eq_iff,
}
use mori_soc.Prelude.Dict.{Dict, get, index_by, NodupKeys, index_onto-NodupKeys}
use mori_soc.Governance.Cycle.{CycleControl}
use mori_soc.Governance.Definitions.{ControlDefinition, control_uid_of}
use mori_soc.Governance.Migration.{
  Plan, move_control, migrate_step, migrate_loop, add_step, add_loop, plan_cycle_migration,
  carry_cycle_control, new_control, empty_plan,
}

abbrev pub refs : List CycleControl → List String
refs [] = []
refs (c ∷ cs) = c.control_ref ∷ refs cs

contains-refs-snoc :
    (cs : List CycleControl) (c : CycleControl) (r : String)
    → contains (refs (cs ++ c ∷ [])) r ≡ (contains (refs cs) r || c.control_ref == r)
contains-refs-snoc [] c r = ground arith
contains-refs-snoc (x ∷ cs) c r = ground (arith, contains-refs-snoc cs c r)

-- The definitions whose uid was carried have a planned control.
abbrev Covers : Dict ControlDefinition → Plan → Type 0
Covers new_by_uid p =
    (uid : String) (d : ControlDefinition)
    → contains p.carried_uids uid ≡ true
    → get new_by_uid uid ≡ some d
    → contains (refs p.controls) d.id ≡ true

module _ (new_cycle_id now created_by : String) (new_by_uid : Dict ControlDefinition) where
  move-Covers :
      (prev : CycleControl) (old new : ControlDefinition) (p : Plan)
      → get new_by_uid (control_uid_of old) ≡ some new
      → Covers new_by_uid p
      → Covers new_by_uid (move_control new_cycle_id now created_by prev old new p)
  unfolding move_control carry_cycle_control
  move-Covers prev old new p e h uid d m g =
      rw contains-refs-snoc
        (ground (arith, eq_iff (control_uid_of old) uid, eq_iff new.id d.id, h uid d))

  step-Covers :
      (old : Option ControlDefinition) (prev : CycleControl) (p : Plan)
      → Covers new_by_uid p
      → Covers new_by_uid (migrate_step new_cycle_id now created_by old new_by_uid prev p)
  unfolding migrate_step
  step-Covers none prev p h = λ uid d m g. rw contains-refs-snoc (rw (h uid d m g))
  step-Covers (some old) prev p h = elim (Option-cases (get new_by_uid (control_uid_of old))) [
    | inl e ↦ rw e h
    | inr (new, e) ↦ rw e (move-Covers prev old new p e h)
  ]

  loop-Covers :
      (old_by_id : Dict ControlDefinition) (prevs : List CycleControl) (p : Plan)
      → Covers new_by_uid p
      → Covers new_by_uid (migrate_loop new_cycle_id now created_by old_by_id new_by_uid prevs p)
  unfolding migrate_loop
  loop-Covers old_by_id [] p h = h
  loop-Covers old_by_id (prev ∷ r) p h =
      loop-Covers old_by_id r _ (step-Covers (get old_by_id prev.control_ref) prev p h)

  add-keeps :
      (uid : String) (d : ControlDefinition) (p : Plan) (r : String)
      → contains (refs p.controls) r ≡ true
      → contains (refs (add_step new_cycle_id now created_by uid d p).controls) r ≡ true
  unfolding add_step
  add-keeps uid d p r h = elim (Bool-cases (contains p.carried_uids uid)) [
    | inl e ↦ rw e h
    | inr e ↦ rw e (rw contains-refs-snoc (rw h))
  ]

  add_loop-keeps :
      (ds : Dict ControlDefinition) (p : Plan) (r : String)
      → contains (refs p.controls) r ≡ true
      → contains (refs (add_loop new_cycle_id now created_by ds p).controls) r ≡ true
  unfolding add_loop
  add_loop-keeps [] p r h = h
  add_loop-keeps ((uid, d) ∷ ds) p r h = add_loop-keeps ds _ r (add-keeps uid d p r h)

  add-Covers :
      (uid : String) (d : ControlDefinition) (p : Plan)
      → Covers new_by_uid p
      → Covers new_by_uid (add_step new_cycle_id now created_by uid d p)
  unfolding add_step
  add-Covers uid d p h = elim (Bool-cases (contains p.carried_uids uid)) [
    | inl e ↦ rw e h
    | inr e ↦ rw e (λ u x m g. rw contains-refs-snoc (rw (h u x m g)))
  ]

  add_self :
      (uid : String) (d : ControlDefinition) (p : Plan)
      → Covers new_by_uid p
      → get new_by_uid uid ≡ some d
      → contains (refs (add_step new_cycle_id now created_by uid d p).controls) d.id ≡ true
  unfolding add_step new_control
  add_self uid d p h g = elim (Bool-cases (contains p.carried_uids uid)) [
    | inl e ↦ rw e (h uid d e g)
    | inr e ↦ rw e (rw contains-refs-snoc (ground (arith, eq_iff d.id d.id)))
  ]

  add_loop-Covers :
      (ds : Dict ControlDefinition) (p : Plan) (uid : String) (d : ControlDefinition)
      → NodupKeys ds
      → ((u : String) (x : ControlDefinition) → get ds u ≡ some x → get new_by_uid u ≡ some x)
      → Covers new_by_uid p
      → get ds uid ≡ some d
      → contains (refs (add_loop new_cycle_id now created_by ds p).controls) d.id ≡ true
  unfolding add_loop get
  add_loop-Covers [] p uid d u sub h g = absurd (none-ne-some d g)
  add_loop-Covers ((k, x) ∷ ds) p uid d u sub h g = elim (Bool-cases (k == uid)) [
    | inl e ↦
        let same : d ≡ x = some-injective d x (sym g ∙ rw e) in
        rw same (add_loop-keeps ds _ x.id (add_self k x p h (sub k x (rw ((eq_iff k k).1 refl)))))
    | inr e ↦
        add_loop-Covers ds _ uid d u.1 (λ j y m. sub j y (ground (arith, eq_iff k j, u.0)))
          (add-Covers k x p h) (rw e at g)
  ]

-- Every definition of the new version, by its uid, has a control in the migrated cycle that refers
-- to it.
pub migration-covers :
    (new_cycle_id now created_by : String) (prevs : List CycleControl)
    (old_controls new_controls : List ControlDefinition) (uid : String) (d : ControlDefinition)
    → get (index_by control_uid_of new_controls) uid ≡ some d
    → contains
        (refs
          (plan_cycle_migration new_cycle_id now created_by prevs old_controls
            new_controls).controls)
        d.id
      ≡ true
unfolding plan_cycle_migration
migration-covers new_cycle_id now created_by prevs old_controls new_controls uid d g =
    let new_by_uid = index_by control_uid_of new_controls in
    add_loop-Covers new_cycle_id now created_by new_by_uid new_by_uid _ uid d
      (index_onto-NodupKeys control_uid_of [] new_controls tt) (λ u x e. e)
      (loop-Covers new_cycle_id now created_by new_by_uid _ prevs empty_plan
        (λ u x m e. absurd (false≢true m)))
      g
