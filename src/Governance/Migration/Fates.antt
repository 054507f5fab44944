-- ===== src/Governance/Migration/Fates.antt =====
-- What becomes of each previous control and of each new definition.
use mathlib.Core.List
use mathlib.Core.Path.{subst}
use mori_soc.Prelude.{
  true, ◌+◌, String, ◌≡◌, refl, sym, ap, ◌∙◌, List, [], ◌∷◌, ◌++◌, none, some, arith, length,
  length-append, contains, map, if◌then◌else◌, Option-cases, Bool-cases, inl, inr, Bool, false,
  ◌==◌,
}
use mori_soc.Prelude.Dict.{Dict, get, index_by, index_onto-NodupKeys}
use mori_soc.Governance.Cycle.{CycleControl}
use mori_soc.Governance.Definitions.{ControlDefinition, control_uid_of, migration_reason, row_of}
use mori_soc.Governance.Migration.{
  Plan, RemovedControl, keep_control, drop_control, move_control, migrate_step, migrate_loop,
  add_step, add_loop, plan_cycle_migration, carry_cycle_control, new_control, empty_plan,
  index_by_id,
}
use mori_soc.Governance.Migration.Planned.{
  AllEntries, entries-found, linked_uids, loop-links, add-carried_uids,
}
use mori_soc.Governance.Migration.Conservation.{Accounts, migration-Accounts}

-- A planned control names the previous one, refers to the definition that is given, and keeps the assignee.
pub record Carried (prev : CycleControl) (ref : String) (c : CycleControl) : Type 0 where
  pub refers : c.control_ref ≡ ref
  pub names : c.carried_from ≡ prev.id
  pub names_ref : c.carried_from_control_ref ≡ prev.control_ref
  pub keeps_assignee : c.assignee ≡ prev.assignee

pub record Removed (prev : CycleControl) (old : ControlDefinition) (r : RemovedControl)
    : Type 0 where
  pub names_ref : r.old_ref ≡ prev.control_ref
  pub shows : r.row ≡ row_of (control_uid_of old) old

-- The planned and the removed controls of the previous ones, each in their order: a control that refers to no
-- definition of the old version is kept, one whose definition has a successor of its uid is moved to it, and
-- any other one is removed.
pub data Settled (old_by new_by : Dict ControlDefinition)
    : List CycleControl → List CycleControl → List RemovedControl → Type 0 where
  nothing : Settled old_by new_by [] [] []
  kept :
      (prev c : CycleControl) (prevs cs : List CycleControl) (rs : List RemovedControl)
      → get old_by prev.control_ref ≡ none
      → Carried prev prev.control_ref c
      → Settled old_by new_by prevs cs rs
      → Settled old_by new_by (prev ∷ prevs) (c ∷ cs) rs
  moved :
      (prev c : CycleControl) (old new : ControlDefinition) (prevs cs : List CycleControl)
      (rs : List RemovedControl)
      → get old_by prev.control_ref ≡ some old
      → get new_by (control_uid_of old) ≡ some new
      → Carried prev new.id c
      → Settled old_by new_by prevs cs rs
      → Settled old_by new_by (prev ∷ prevs) (c ∷ cs) rs
  removed :
      (prev : CycleControl) (old : ControlDefinition) (r : RemovedControl)
      (prevs cs : List CycleControl) (rs : List RemovedControl)
      → get old_by prev.control_ref ≡ some old
      → get new_by (control_uid_of old) ≡ none
      → Removed prev old r
      → Settled old_by new_by prevs cs rs
      → Settled old_by new_by (prev ∷ prevs) cs (r ∷ rs)

-- A loop has appended these controls and these removed ones, and has counted the former as carried.
record Appends (before after : Plan) (cs : List CycleControl) (rs : List RemovedControl)
    : Type 0 where
  controls : after.controls ≡ before.controls ++ cs
  removed : after.removed ≡ before.removed ++ rs
  carried : after.carried ≡ before.carried + length cs

Appends-then :
    (p q r : Plan) (cs ds : List CycleControl) (rs ss : List RemovedControl)
    → Appends p q cs rs
    → Appends q r ds ss
    → Appends p r (cs ++ ds) (rs ++ ss)
Appends-then p q r cs ds rs ss h k = record {
  controls = k.controls ∙ ap (λ xs. xs ++ ds) h.controls ∙ List.append_assoc p.controls cs ds;
  removed = k.removed ∙ ap (λ xs. xs ++ ss) h.removed ∙ List.append_assoc p.removed rs ss;
  carried = omega (arith, h.carried, k.carried, length-append cs ds);
}

module _ (new_cycle_id now created_by : String) where
  carry : CycleControl → String → String → Bool → CycleControl
  carry prev ref reason review =
      carry_cycle_control prev ref reason review new_cycle_id now created_by

  carry-Carried :
      (prev : CycleControl) (ref reason : String) (review : Bool)
      → Carried prev ref (carry prev ref reason review)
  unfolding carry carry_cycle_control
  carry-Carried prev ref reason review = record {
    refers = refl;
    names = refl;
    names_ref = refl;
    keeps_assignee = refl;
  }

  keep-Appends :
      (prev : CycleControl) (p : Plan)
      → Appends p
          (keep_control new_cycle_id now created_by prev p)
          (carry prev prev.control_ref "carried" false ∷ [])
          []
  unfolding keep_control carry
  keep-Appends prev p = record {
    controls = refl;
    removed = sym (List.append-nil p.removed);
    carried = omega arith;
  }

  drop-Appends :
      (prev : CycleControl) (old : ControlDefinition) (p : Plan)
      → Appends p
          (drop_control new_cycle_id now created_by prev old p)
          []
          (record { row = row_of (control_uid_of old) old; old_ref = prev.control_ref } ∷ [])
  unfolding drop_control
  drop-Appends prev old p = record {
    controls = sym (List.append-nil p.controls);
    removed = refl;
    carried = omega arith;
  }

  move-Appends :
      (prev : CycleControl) (old new : ControlDefinition) (p : Plan)
      → Appends p
          (move_control new_cycle_id now created_by prev old new p)
          (carry prev new.id (migration_reason old new) (migration_reason old new == "text_changed")
            ∷ [])
          []
  unfolding move_control carry
  move-Appends prev old new p = record {
    controls = refl;
    removed = sym (List.append-nil p.removed);
    carried = omega arith;
  }

  -- What the first loop has appended settles the previous controls that it has gone through.
  LoopSettles : Dict ControlDefinition → Dict ControlDefinition → List CycleControl → Plan → Type 0
  LoopSettles old_by new_by prevs p =
      (cs : List CycleControl) × (rs : List RemovedControl) × Appends p
        (migrate_loop new_cycle_id now created_by old_by new_by prevs p) cs rs
      × Settled old_by new_by prevs cs rs

  loop-settles :
      (old_by new_by : Dict ControlDefinition) (prevs : List CycleControl) (p : Plan)
      → LoopSettles old_by new_by prevs p
  unfolding LoopSettles migrate_loop migrate_step
  loop-settles old_by new_by [] p = (
    [],
    [],
    record {
      controls = sym (List.append-nil p.controls);
      removed = sym (List.append-nil p.removed);
      carried = omega arith;
    },
    nothing,
  )
  loop-settles old_by new_by (prev ∷ prevs) p = elim (Option-cases (get old_by prev.control_ref)) [
    | inl e ↦
        let q = keep_control new_cycle_id now created_by prev p in
        let (cs, rs, a, s) = loop-settles old_by new_by prevs q in
        rw (e) (
          (
            _ ∷ cs,
            rs,
            Appends-then p q _ _ cs [] rs (keep-Appends prev p) a,
            kept prev _ prevs cs rs e (carry-Carried prev prev.control_ref "carried" false) s,
          ))
    | inr (old, e) ↦ elim (Option-cases (get new_by (control_uid_of old))) [
      | inl f ↦
          let q = drop_control new_cycle_id now created_by prev old p in
          let (cs, rs, a, s) = loop-settles old_by new_by prevs q in
          rw (e, f)
            ((
              cs,
              _ ∷ rs,
              Appends-then p q _ [] cs _ rs (drop-Appends prev old p) a,
              removed prev old _ prevs cs rs e f (record { names_ref = refl; shows = refl }) s,
            ))
      | inr (new, f) ↦
          let q = move_control new_cycle_id now created_by prev old new p in
          let (cs, rs, a, s) = loop-settles old_by new_by prevs q in
          rw (e, f)
            ((
              _ ∷ cs,
              rs,
              Appends-then p q _ _ cs [] rs (move-Appends prev old new p) a,
              moved prev _ old new prevs cs rs e f
                  (carry-Carried prev new.id (migration_reason old new)
                    (migration_reason old new == "text_changed"))
                  s,
            ))
    ]
  ]

-- The ids of the definitions whose uid is none of the linked ones.
abbrev pub unlinked : List String → Dict ControlDefinition → List String
unlinked links [] = []
unlinked links ((uid, d) ∷ ds) =
    let rest = unlinked links ds in if contains links uid then rest else d.id ∷ rest

module _ (new_cycle_id now created_by : String) where
  -- The second loop appends controls for the unlinked definitions, and changes nothing else.
  record Adds (links : List String) (ds : Dict ControlDefinition) (p : Plan)
      (fs : List CycleControl) : Type 0 where
    controls : (add_loop new_cycle_id now created_by ds p).controls ≡ p.controls ++ fs
    removed : (add_loop new_cycle_id now created_by ds p).removed ≡ p.removed
    carried : (add_loop new_cycle_id now created_by ds p).carried ≡ p.carried
    refs : map (λ (c : CycleControl). c.control_ref) fs ≡ unlinked links ds

  old_step :
      (uid : String) (d : ControlDefinition) (p : Plan)
      → contains p.carried_uids uid ≡ true
      → add_step new_cycle_id now created_by uid d p ≡ p
  unfolding add_step
  old_step uid d p e = rw (e) refl

  new_step :
      (uid : String) (d : ControlDefinition) (p : Plan)
      → contains p.carried_uids uid ≡ false
      → add_step new_cycle_id now created_by uid d p ≡ record p {
        controls = p.controls ++ new_control d new_cycle_id now created_by ∷ [];
        new_controls = p.new_controls + 1;
      }
  unfolding add_step
  new_step uid d p e = rw (e) refl

  new_ref : (d : ControlDefinition) → (new_control d new_cycle_id now created_by).control_ref ≡ d.id
  unfolding new_control
  new_ref d = refl

  loop-Adds :
      (new_by : Dict ControlDefinition) (links : List String) (ds : Dict ControlDefinition)
      (p : Plan)
      → AllEntries (λ k d. get new_by k ≡ some d) ds
      → ((k : String) (d : ControlDefinition)
          → get new_by k ≡ some d
          → contains p.carried_uids k ≡ contains links k)
      → (fs : List CycleControl) × Adds links ds p fs
  unfolding add_loop AllEntries
  loop-Adds new_by links [] p es inv = (
    [],
    record {
      controls = sym (List.append-nil p.controls);
      removed = refl;
      carried = refl;
      refs = refl;
    },
  )
  loop-Adds new_by links ((uid, d) ∷ ds) p es inv =
      let same = inv uid d es.0 in
      let next = add_step new_cycle_id now created_by uid d p in
      let (fs, a) = loop-Adds new_by links ds next es.1 (λ k x m.
        ap (λ us. contains us k)
          (add-carried_uids new_cycle_id now created_by new_by new_by uid d p)
        ∙ inv k x m) in
      elim (Bool-cases (contains p.carried_uids uid)) [
        | inl e ↦
            let step = old_step uid d p e in
            (
              fs,
              record {
                controls = a.controls ∙ ap (λ n. n.controls ++ fs) step;
                removed = a.removed ∙ ap (λ n. n.removed) step;
                carried = a.carried ∙ ap (λ n. n.carried) step;
                refs = rw (sym same ∙ e) a.refs;
              },
            )
        | inr e ↦
            let step = new_step uid d p e in
            let c = new_control d new_cycle_id now created_by in
            (
              c ∷ fs,
              record {
                controls =
                    a.controls
                    ∙ ap (λ n. n.controls ++ fs) step
                    ∙ List.append_assoc p.controls (c ∷ []) fs;
                removed = a.removed ∙ ap (λ n. n.removed) step;
                carried = a.carried ∙ ap (λ n. n.carried) step;
                refs = rw (sym same ∙ e) (rw (new_ref d, a.refs) refl);
              },
            )
      ]

-- What a plan holds: the controls carried from previous ones, then those for new definitions, and the removed
-- controls, all of them counted.
pub record Settles (old_by new_by : Dict ControlDefinition) (prevs : List CycleControl) (p : Plan)
    : Type 0 where
  pub from_previous : List CycleControl
  pub for_new : List CycleControl
  pub planned : p.controls ≡ from_previous ++ for_new
  pub settled : Settled old_by new_by prevs from_previous p.removed
  pub refer_to_new :
      map (λ (c : CycleControl). c.control_ref) for_new ≡ unlinked (linked_uids old_by prevs) new_by
  pub counts_carried : p.carried ≡ length from_previous
  pub counts_new : p.new_controls ≡ length for_new

-- A migration accounts for every previous control, in order: one that refers to no definition of the old
-- version is carried with its own reference, one whose definition has a successor of its uid is carried
-- with the reference of the successor, and any other one is listed as removed, with its reference and its
-- definition, and counted as unresolved. A carried control names the previous one and keeps its assignee.
-- The other planned controls are one for each definition of the new version that no previous control is
-- linked to, in order, and the counts of carried, new and removed controls are the lengths of these lists.
pub migration-Settles :
    (new_cycle_id now created_by : String) (prevs : List CycleControl)
    (old_controls new_controls : List ControlDefinition)
    → let p = plan_cycle_migration new_cycle_id now created_by prevs old_controls new_controls in
      Settles (index_by_id old_controls) (index_by control_uid_of new_controls) prevs p
      × Accounts (length prevs) p
unfolding plan_cycle_migration LoopSettles
migration-Settles new_cycle_id now created_by prevs old_controls new_controls =
    let old_by = index_by_id old_controls in
    let new_by = index_by control_uid_of new_controls in
    let (cs, rs, a, s) = loop-settles new_cycle_id now created_by old_by new_by prevs empty_plan in
    let p = migrate_loop new_cycle_id now created_by old_by new_by prevs empty_plan in
    let (fs, b) =
      loop-Adds new_cycle_id now created_by new_by (linked_uids old_by prevs) new_by p
        (entries-found new_by new_by (index_onto-NodupKeys control_uid_of [] new_controls tt)
          (λ k d e. e))
        (λ k d e.
          let linked =
            loop-links new_cycle_id now created_by old_by new_by prevs empty_plan k d e in
          ground (arith, linked)) in
    let planned = b.controls ∙ ap (λ xs. xs ++ fs) a.controls in
    let accounts = migration-Accounts new_cycle_id now created_by prevs old_controls new_controls in
    let all_carried = b.carried ∙ a.carried in
    (
      record {
        from_previous = cs;
        for_new = fs;
        planned = planned;
        settled = subst (Settled old_by new_by prevs cs) (sym (b.removed ∙ a.removed)) s;
        refer_to_new = b.refs;
        counts_carried = all_carried ∙ omega arith;
        counts_new =
            omega
              (arith, accounts.all_planned, ap length planned, length-append cs fs, all_carried);
      },
      accounts,
    )
