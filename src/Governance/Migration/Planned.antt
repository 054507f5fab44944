-- ===== src/Governance/Migration/Planned.antt =====
-- What a planned control comes from, and when its design is to be reviewed.
use mathlib.Core.Bool.{false≢true}
use mori_soc.Prelude.{
  String, ◌≡◌, ◌↔◌, refl, sym, ap, ◌∙◌, Bool, true, false, not, ◌||◌, List, [], ◌∷◌, Option, none,
  some, arith, All, All-append, contains, Option-cases, Bool-cases, inl, inr, ◌==◌, eq_iff,
}
use mori_soc.Prelude.Dict.{Dict, get, index_by, NodupKeys, index_onto-NodupKeys}
use mori_soc.Governance.Cycle.{CycleControl}
use mori_soc.Governance.Definitions.{
  ControlDefinition, control_uid_of, control_body, same_texts, body_changed, code_changed,
  migration_reason,
}
use mori_soc.Governance.Migration.{
  Plan, move_control, migrate_step, migrate_loop, add_step, add_loop, plan_cycle_migration,
  carry_cycle_control, new_control, empty_plan, index_by_id,
}
use mori_soc.Governance.Migration.Reset.{IsFresh}

same_texts_refl : (xs : List String) → same_texts xs xs ≡ true
same_texts_refl [] = refl
same_texts_refl (x ∷ xs) = ground (arith, eq_iff x x, same_texts_refl xs)

same_texts_eq : (xs ys : List String) → same_texts xs ys ≡ true → xs ≡ ys
same_texts_eq [] [] h = refl
same_texts_eq [] (y ∷ ys) h = absurd (false≢true h)
same_texts_eq (x ∷ xs) [] h = absurd (false≢true h)
same_texts_eq (x ∷ xs) (y ∷ ys) h =
    let first : (x == y) ≡ true = ground (arith, h) in
    let rest : same_texts xs ys ≡ true = ground (arith, h) in
    ap (λ a. a ∷ xs) ((eq_iff x y).0 first) ∙ ap (λ zs. y ∷ zs) (same_texts_eq xs ys rest)

-- The text of two definitions is unchanged exactly if their bodies are equal.
body_unchanged :
    (old new : ControlDefinition)
    → (body_changed old new ≡ false) ↔ (control_body old ≡ control_body new)
body_unchanged old new = (
  λ h. same_texts_eq (control_body old) (control_body new) (ground (arith, h)),
  λ e.
      ap (λ xs. not (same_texts (control_body old) xs)) (sym e)
      ∙ ap not (same_texts_refl (control_body old)),
)

reason_is_text :
    (old new : ControlDefinition)
    → (migration_reason old new == "text_changed") ≡ body_changed old new
unfolding migration_reason
reason_is_text old new = elim (Bool-cases (body_changed old new)) [
  | inl e ↦ rw (e) refl
  | inr e ↦
      rw (e)
        (elim (Bool-cases (code_changed old new)) [ inl c ↦ rw (c) refl | inr c ↦ rw (c) refl ])
]

-- The uids of the definitions that the previous controls refer to.
abbrev pub linked_uid : Option ControlDefinition → List String → List String
linked_uid none uids = uids
linked_uid (some old) uids = control_uid_of old ∷ uids

abbrev pub linked_uids : Dict ControlDefinition → List CycleControl → List String
linked_uids old_by [] = []
linked_uids old_by (prev ∷ r) = linked_uid (get old_by prev.control_ref) (linked_uids old_by r)

-- What a planned control comes from: a previous control that refers to no definition of the old version; one
-- whose definition has a successor, where the review is not asked for exactly if the bodies of both are
-- equal; or a new definition that no previous control is linked to.
pub data Source (old_by new_by : Dict ControlDefinition) (links : List String) (c : CycleControl)
    : Type 0 where
  kept :
      get old_by c.carried_from_control_ref ≡ none
      → c.control_ref ≡ c.carried_from_control_ref
      → c.requires_design_review ≡ false
      → Source old_by new_by links c
  moved :
      (old new : ControlDefinition)
      → get old_by c.carried_from_control_ref ≡ some old
      → get new_by (control_uid_of old) ≡ some new
      → c.control_ref ≡ new.id
      → (c.requires_design_review ≡ false) ↔ (control_body old ≡ control_body new)
      → Source old_by new_by links c
  added :
      (uid : String) (d : ControlDefinition)
      → get new_by uid ≡ some d
      → contains links uid ≡ false
      → c.control_ref ≡ d.id
      → c.requires_design_review ≡ true
      → Source old_by new_by links c

pub record IsPlanned (old_by new_by : Dict ControlDefinition) (links : List String)
    (c : CycleControl) : Type 0 where
  pub fresh : IsFresh c
  pub source : Source old_by new_by links c

unfoldable pub AllEntries : (String → ControlDefinition → Type 0) → Dict ControlDefinition → Type 0
AllEntries P [] = Unit
AllEntries P ((k, d) ∷ ds) = P k d × AllEntries P ds

-- Each entry of a dict is found under its key.
pub entries-found :
    (new_by ds : Dict ControlDefinition)
    → NodupKeys ds
    → ((k : String) (d : ControlDefinition) → get ds k ≡ some d → get new_by k ≡ some d)
    → AllEntries (λ k d. get new_by k ≡ some d) ds
unfolding AllEntries get
entries-found new_by [] u sub = tt
entries-found new_by ((k, d) ∷ ds) u sub = (
  sub k d (rw ((eq_iff k k).1 refl)),
  entries-found new_by ds u.1 (λ j x m. sub j x (ground (arith, eq_iff k j, u.0))),
)

contains-linked_uid :
    (o : Option ControlDefinition) (uids : List String) (uid : String)
    → contains (linked_uid o uids) uid ≡ (contains (linked_uid o []) uid || contains uids uid)
contains-linked_uid none uids uid = refl
contains-linked_uid (some old) uids uid = ground arith

module _ (new_cycle_id now created_by : String) (old_by new_by : Dict ControlDefinition) where
  step-links :
      (o : Option ControlDefinition) (prev : CycleControl) (p : Plan) (uid : String)
      (d : ControlDefinition)
      → get new_by uid ≡ some d
      → contains (migrate_step new_cycle_id now created_by o new_by prev p).carried_uids uid
        ≡ contains (linked_uid o p.carried_uids) uid
  unfolding migrate_step move_control
  step-links none prev p uid d g = refl
  step-links (some old) prev p uid d g = elim (Option-cases (get new_by (control_uid_of old))) [
    | inl e ↦ rw (e) (ground (arith, eq_iff (control_uid_of old) uid, e, g))
    | inr (new, e) ↦ rw (e) refl
  ]

  -- Of the definitions that have a successor, those are carried that a previous control refers to.
  pub loop-links :
      (prevs : List CycleControl) (p : Plan) (uid : String) (d : ControlDefinition)
      → get new_by uid ≡ some d
      → contains (migrate_loop new_cycle_id now created_by old_by new_by prevs p).carried_uids uid
        ≡ (contains (linked_uids old_by prevs) uid || contains p.carried_uids uid)
  unfolding migrate_loop
  loop-links [] p uid d g = refl
  loop-links (prev ∷ r) p uid d g =
      let step =
        migrate_step new_cycle_id now created_by (get old_by prev.control_ref) new_by prev p in
      let first = step-links (get old_by prev.control_ref) prev p uid d g in
      let rest = loop-links r step uid d g in
      ground (
        arith,
        rest,
        first,
        contains-linked_uid (get old_by prev.control_ref) p.carried_uids uid,
        contains-linked_uid (get old_by prev.control_ref) (linked_uids old_by r) uid,
      )

  carry-IsPlanned :
      (links : List String) (prev : CycleControl) (new_ref reason : String) (review : Bool)
      → Source old_by new_by links
          (carry_cycle_control prev new_ref reason review new_cycle_id now created_by)
      → IsPlanned old_by new_by links
          (carry_cycle_control prev new_ref reason review new_cycle_id now created_by)
  unfolding carry_cycle_control
  carry-IsPlanned links prev new_ref reason review h = record {
    fresh = record { no_evidence = refl; no_judgment = refl; no_assessments = refl };
    source = h;
  }

  kept-Source :
      (links : List String) (prev : CycleControl)
      → get old_by prev.control_ref ≡ none
      → Source old_by new_by links
          (carry_cycle_control prev prev.control_ref "carried" false new_cycle_id now created_by)
  unfolding carry_cycle_control
  kept-Source links prev e = kept e refl refl

  moved-Source :
      (links : List String) (prev : CycleControl) (old new : ControlDefinition)
      → get old_by prev.control_ref ≡ some old
      → get new_by (control_uid_of old) ≡ some new
      → Source old_by new_by links (
          carry_cycle_control prev new.id
            (migration_reason old new)
            (migration_reason old new == "text_changed")
            new_cycle_id
            now
            created_by)
  unfolding carry_cycle_control
  moved-Source links prev old new e f =
      let text = reason_is_text old new in
      let unchanged = body_unchanged old new in
      moved old new e f refl (λ h. unchanged.0 (sym text ∙ h), λ h. text ∙ unchanged.1 h)

  new-IsPlanned :
      (links : List String) (uid : String) (d : ControlDefinition)
      → get new_by uid ≡ some d
      → contains links uid ≡ false
      → IsPlanned old_by new_by links (new_control d new_cycle_id now created_by)
  unfolding new_control
  new-IsPlanned links uid d e f = record {
    fresh = record { no_evidence = refl; no_judgment = refl; no_assessments = refl };
    source = added uid d e f refl refl;
  }

  step-IsPlanned :
      (links : List String) (prev : CycleControl) (o : Option ControlDefinition) (p : Plan)
      → get old_by prev.control_ref ≡ o
      → All (IsPlanned old_by new_by links) p.controls
      → All
          (IsPlanned old_by new_by links)
          (migrate_step new_cycle_id now created_by o new_by prev p).controls
  unfolding migrate_step
  step-IsPlanned links prev none p e h =
      All-append (IsPlanned old_by new_by links) p.controls _ h
        (carry-IsPlanned links prev prev.control_ref "carried" false (kept-Source links prev e), tt)
  step-IsPlanned links prev (some old) p e h =
      elim (Option-cases (get new_by (control_uid_of old))) [
        | inl f ↦ rw (f) h
        | inr (new, f) ↦ rw (f) (
            All-append (IsPlanned old_by new_by links) p.controls _ h (
              carry-IsPlanned links prev new.id (migration_reason old new)
                  (migration_reason old new == "text_changed")
                  (moved-Source links prev old new e f),
              tt,
            ))
      ]

  loop-IsPlanned :
      (links : List String) (prevs : List CycleControl) (p : Plan)
      → All (IsPlanned old_by new_by links) p.controls
      → All
          (IsPlanned old_by new_by links)
          (migrate_loop new_cycle_id now created_by old_by new_by prevs p).controls
  unfolding migrate_loop
  loop-IsPlanned links [] p h = h
  loop-IsPlanned links (prev ∷ r) p h =
      loop-IsPlanned links r _ (step-IsPlanned links prev (get old_by prev.control_ref) p refl h)

  pub add-carried_uids :
      (uid : String) (d : ControlDefinition) (p : Plan)
      → (add_step new_cycle_id now created_by uid d p).carried_uids ≡ p.carried_uids
  unfolding add_step
  add-carried_uids uid d p = elim (Bool-cases (contains p.carried_uids uid)) [
    | inl e ↦ rw (e) refl
    | inr e ↦ rw (e) refl
  ]

  add-IsPlanned :
      (links : List String) (uid : String) (d : ControlDefinition) (p : Plan)
      → get new_by uid ≡ some d
      → contains p.carried_uids uid ≡ contains links uid
      → All (IsPlanned old_by new_by links) p.controls
      → All (IsPlanned old_by new_by links) (add_step new_cycle_id now created_by uid d p).controls
  unfolding add_step
  add-IsPlanned links uid d p g inv h = elim (Bool-cases (contains p.carried_uids uid)) [
    | inl e ↦ rw (e) h
    | inr e ↦ rw (e) (
        All-append (IsPlanned old_by new_by links) p.controls _ h
          (new-IsPlanned links uid d g (sym inv ∙ e), tt))
  ]

  add_loop-IsPlanned :
      (links : List String) (ds : Dict ControlDefinition) (p : Plan)
      → AllEntries (λ k d. get new_by k ≡ some d) ds
      → ((k : String) (d : ControlDefinition)
          → get new_by k ≡ some d
          → contains p.carried_uids k ≡ contains links k)
      → All (IsPlanned old_by new_by links) p.controls
      → All (IsPlanned old_by new_by links) (add_loop new_cycle_id now created_by ds p).controls
  unfolding add_loop AllEntries
  add_loop-IsPlanned links [] p es inv h = h
  add_loop-IsPlanned links ((uid, d) ∷ ds) p es inv h =
      add_loop-IsPlanned links ds (add_step new_cycle_id now created_by uid d p) es.1
        (λ k x m. ap (λ us. contains us k) (add-carried_uids uid d p) ∙ inv k x m)
        (add-IsPlanned links uid d p es.0 (inv uid d es.0) h)

-- Every control that a migration plans starts with no evidence, no judgment and no assessment, whatever the
-- last cycle held. It comes from a previous control that refers to no definition of the old version, and
-- then it is not to be reviewed; or from one whose definition has a successor of its uid in the new
-- version, and then it is to be reviewed exactly if the bodies of the two definitions differ; or from a
-- definition of the new version that no previous control is linked to, and then it is to be reviewed.
pub migration-IsPlanned :
    (new_cycle_id now created_by : String) (prevs : List CycleControl)
    (old_controls new_controls : List ControlDefinition)
    → let old_by = index_by_id old_controls in
      All
        (IsPlanned old_by (index_by control_uid_of new_controls) (linked_uids old_by prevs))
        (plan_cycle_migration new_cycle_id now created_by prevs old_controls new_controls).controls
unfolding plan_cycle_migration
migration-IsPlanned new_cycle_id now created_by prevs old_controls new_controls =
    let old_by = index_by_id old_controls in
    let new_by = index_by control_uid_of new_controls in
    let links = linked_uids old_by prevs in
    add_loop-IsPlanned new_cycle_id now created_by old_by new_by links new_by
      (migrate_loop new_cycle_id now created_by old_by new_by prevs empty_plan)
      (entries-found new_by new_by (index_onto-NodupKeys control_uid_of [] new_controls tt)
        (λ k d e. e))
      (λ k d e.
        let linked = loop-links new_cycle_id now created_by old_by new_by prevs empty_plan k d e in
        ground (arith, linked))
      (loop-IsPlanned new_cycle_id now created_by old_by new_by links prevs empty_plan tt)
