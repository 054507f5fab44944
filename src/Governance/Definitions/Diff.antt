-- ===== src/Governance/Definitions/Diff.antt =====
-- The comparison of two framework versions sorts every control into one list.
use mori_soc.Prelude.{
  ℕ, suc, ◌+◌, String, ◌≡◌, refl, sym, ◌∙◌, true, List, [], ◌∷◌, ◌++◌, Option, none, some, arith,
  length, length-append, Bool-cases, inl, inr, eq_iff, if◌then◌else◌,
}
use mori_soc.Prelude.Dict.{Dict, get, index_by, is_some, NodupKeys, index_onto-NodupKeys}
use mori_soc.Governance.Definitions.{
  ControlDefinition, control_uid_of, same_texts, control_body, body_changed, code_changed,
  VersionDiff, row_of, pair_row, diff_step, diff_loop, removed_rows, diff_control_definitions,
  empty_diff,
}
use mathlib.Core.List.{append-nil, append_assoc}

-- How many controls of the new version the first four lists hold.
abbrev pub sorted_count : VersionDiff → ℕ
sorted_count d = length d.added + length d.renumbered + length d.text_changed + length d.unchanged

length-snoc {ℓ} : {A : Type ℓ} (xs : List A) (x : A) → length (xs ++ x ∷ []) ≡ suc (length xs)
length-snoc xs x = omega (arith, length-append xs (x ∷ []))

sorted_count-diff_step :
    (old : Option ControlDefinition) (uid : String) (new : ControlDefinition) (d : VersionDiff)
    → sorted_count (diff_step old uid new d) ≡ suc (sorted_count d)
unfolding diff_step
sorted_count-diff_step none uid new d = omega (arith, length-snoc {0} d.added (row_of uid new))
sorted_count-diff_step (some old) uid new d = elim (Bool-cases (body_changed old new)) [
  | inl e ↦ rw e (omega (arith, length-snoc d.text_changed (pair_row uid old new)))
  | inr e ↦ rw e (elim (Bool-cases (code_changed old new)) [
    | inl f ↦ rw f (omega (arith, length-snoc d.renumbered (pair_row uid old new)))
    | inr f ↦ rw f (omega (arith, length-snoc d.unchanged (pair_row uid old new)))
  ])
]

sorted_count-diff_loop :
    (old_by new_by : Dict ControlDefinition) (d : VersionDiff)
    → sorted_count (diff_loop old_by new_by d) ≡ sorted_count d + length new_by
unfolding diff_loop
sorted_count-diff_loop old_by [] d = omega arith
sorted_count-diff_loop old_by ((uid, new) ∷ r) d = omega (
  arith,
  sorted_count-diff_loop old_by r (diff_step (get old_by uid) uid new d),
  sorted_count-diff_step (get old_by uid) uid new d,
)

-- The controls of the new version, one for each lineage, are sorted into added, renumbered, changed
-- in text and unchanged: the lengths of the four lists sum to their number.
pub diff_sorts_all :
    (old_controls new_controls : List ControlDefinition)
    → sorted_count (diff_control_definitions old_controls new_controls)
      ≡ length (index_by control_uid_of new_controls)
unfolding diff_control_definitions
diff_sorts_all old_controls new_controls =
    sorted_count-diff_loop (index_by control_uid_of old_controls)
      (index_by control_uid_of new_controls) empty_diff
    ∙ omega arith

same_texts_refl : (xs : List String) → same_texts xs xs ≡ true
same_texts_refl [] = refl
same_texts_refl (x ∷ xs) = rw ((eq_iff x x).1 refl) (same_texts_refl xs)

-- `d` has only unchanged rows.
pub record IsUnchanged (d : VersionDiff) : Type 0 where
  pub none_added : d.added ≡ []
  pub none_renumbered : d.renumbered ≡ []
  pub none_text_changed : d.text_changed ≡ []
  pub none_removed : d.removed ≡ []

diff_step_same :
    (uid : String) (c : ControlDefinition) (d : VersionDiff)
    → IsUnchanged d
    → IsUnchanged (diff_step (some c) uid c d)
unfolding diff_step
diff_step_same uid c d h =
    rw (same_texts_refl (control_body c), (eq_iff c.display_code c.display_code).1 refl)
      (record {
        none_added = h.none_added;
        none_renumbered = h.none_renumbered;
        none_text_changed = h.none_text_changed;
        none_removed = h.none_removed;
      })

diff_loop_same :
    (all r : Dict ControlDefinition) (d : VersionDiff)
    → ((u : String) (x : ControlDefinition) → get r u ≡ some x → get all u ≡ some x)
    → NodupKeys r
    → IsUnchanged d
    → IsUnchanged (diff_loop all r d)
unfolding diff_loop get
diff_loop_same all [] d sub u h = h
diff_loop_same all ((k, c) ∷ r) d sub u h = rw (sub k c (rw ((eq_iff k k).1 refl))) (
    diff_loop_same all r _ (λ j y m. sub j y (ground (arith, eq_iff k j, u.0))) u.1
      (diff_step_same k c d h))

removed_rows_same :
    (all r : Dict ControlDefinition)
    → ((u : String) (x : ControlDefinition) → get r u ≡ some x → get all u ≡ some x)
    → NodupKeys r
    → removed_rows r all ≡ []
unfolding removed_rows get
removed_rows_same all [] sub u = refl
removed_rows_same all ((k, c) ∷ r) sub u =
    rw (sub k c (rw ((eq_iff k k).1 refl)))
      (removed_rows_same all r (λ j y m. sub j y (ground (arith, eq_iff k j, u.0))) u.1)

-- A version compared with itself shows nothing added, removed, renumbered or changed in text.
pub diff_same :
    (controls : List ControlDefinition) → IsUnchanged (diff_control_definitions controls controls)
unfolding diff_control_definitions
diff_same controls =
    let by = index_by control_uid_of controls in
    let u = index_onto-NodupKeys control_uid_of [] controls tt in
    let h : IsUnchanged (diff_loop by by empty_diff) =
      diff_loop_same by by empty_diff (λ j x e. e) u
        (record {
          none_added = refl;
          none_renumbered = refl;
          none_text_changed = refl;
          none_removed = refl;
        }) in
    record {
      none_added = h.none_added;
      none_renumbered = h.none_renumbered;
      none_text_changed = h.none_text_changed;
      none_removed = removed_rows_same by by (λ j x e. e) u;
    }

added-diff_step :
    (old : Option ControlDefinition) (uid : String) (new : ControlDefinition) (d : VersionDiff)
    → (diff_step old uid new d).added
      ≡ (if is_some old then d.added else d.added ++ row_of uid new ∷ [])
unfolding diff_step
added-diff_step none uid new d = refl
added-diff_step (some old) uid new d = elim (Bool-cases (body_changed old new)) [
  | inl e ↦ rw e
  | inr e ↦ rw e (elim (Bool-cases (code_changed old new)) [ inl f ↦ rw f | inr f ↦ rw f ])
]

added-diff_loop :
    (old_by r : Dict ControlDefinition) (d : VersionDiff)
    → (diff_loop old_by r d).added ≡ d.added ++ removed_rows r old_by
unfolding diff_loop removed_rows
added-diff_loop old_by [] d = sym (append-nil d.added)
added-diff_loop old_by ((uid, new) ∷ r) d =
    let e = added-diff_step (get old_by uid) uid new d in
    added-diff_loop old_by r (diff_step (get old_by uid) uid new d)
    ∙ elim (Bool-cases (is_some (get old_by uid))) [
      | inl p ↦ rw e (rw p)
      | inr p ↦ rw e (rw p (append_assoc d.added (row_of uid new ∷ []) (removed_rows r old_by)))
    ]

-- What the comparison from one version to another shows as removed is what the comparison the other
-- way shows as added, in the same order.
pub removed-eq-added :
    (old_controls new_controls : List ControlDefinition)
    → (diff_control_definitions old_controls new_controls).removed
      ≡ (diff_control_definitions new_controls old_controls).added
unfolding diff_control_definitions
removed-eq-added old_controls new_controls = sym (
    added-diff_loop (index_by control_uid_of new_controls) (index_by control_uid_of old_controls)
      empty_diff)
