-- ===== src/Governance/Cycle/Updates.antt =====
-- What an update may change: the history and the assessments only grow, and judgments are fixed.
use mori_soc.Prelude.{
  ℕ, ◌+◌, ◌≡◌, ◌∙◌, true, false, ◌&&◌, List, [], ◌∷◌, ◌++◌, arith, length, contains, inl, inr,
  Bool-cases, ◌==◌, if◌then◌else◌,
}
use mori_soc.Prelude.Dict.{get}
use mori_soc.Governance.Cycle.{
  Entry, Assessment, CycleControl, Change, differs, new_value, note_change, field_changes,
  confirms_applicability, all_changes, is_noop, is_judgment, judged, update_entry,
  apply_cycle_control_update, assessment_judgments,
}
use mori_soc.Governance.Cycle.Replay.{run_updates, assessment_noted}
use mathlib.Core.List.{append-nil, append_assoc}

-- What a sequence of updates added to the history and to the assessments.
pub record Grows (before after : CycleControl) : Type 0 where
  pub new_entries : List Entry
  pub new_assessments : List Assessment
  pub entries_kept : after.history ≡ before.history ++ new_entries
  pub assessments_kept : after.assessments ≡ before.assessments ++ new_assessments

judged_added : CycleControl → Change → List Assessment
judged_added cc c =
    if is_judgment cc c
    then record {
      assessment_version = length cc.assessments + 1;
      status = c.assessment_status;
      evidence_set_hash = c.evidence_set_hash;
      assessed_by = c.actor;
      assessed_at = c.now;
      rationale = c.rationale;
      scope_snapshot_id = c.scope_snapshot_id;
    }
      ∷ []
    else []

judged-append : (cc : CycleControl) (c : Change) → judged cc c ≡ cc.assessments ++ judged_added cc c
unfolding judged judged_added
judged-append cc c = elim (Bool-cases (is_judgment cc c)) [
  | inl p ↦ rw p
  | inr p ↦ rw p (rw append-nil)
]

update-Grows : (cc : CycleControl) (c : Change) → Grows cc (apply_cycle_control_update cc c)
unfolding apply_cycle_control_update
update-Grows cc c = elim (Bool-cases (is_noop cc c)) [
  | inl p ↦ record {
    new_entries = [];
    new_assessments = judged_added cc c;
    entries_kept = rw p (rw append-nil);
    assessments_kept = rw p (judged-append cc c);
  }
  | inr p ↦ record {
    new_entries = update_entry cc c ∷ [];
    new_assessments = judged_added cc c;
    entries_kept = rw p;
    assessments_kept = rw p (judged-append cc c);
  }
]

-- However often a control is updated, its earlier history entries and assessments stay, in place.
pub run_updates-Grows : (cc : CycleControl) (cs : List Change) → Grows cc (run_updates cc cs)
run_updates-Grows cc [] = record {
  new_entries = [];
  new_assessments = [];
  entries_kept = rw append-nil;
  assessments_kept = rw append-nil;
}
run_updates-Grows cc (c ∷ cs) =
    let first = update-Grows cc c in
    let rest = run_updates-Grows (apply_cycle_control_update cc c) cs in
    record {
      new_entries = first.new_entries ++ rest.new_entries;
      new_assessments = first.new_assessments ++ rest.new_assessments;
      entries_kept = rest.entries_kept ∙ rw (first.entries_kept, append_assoc);
      assessments_kept = rest.assessments_kept ∙ rw (first.assessments_kept, append_assoc);
    }

-- An update that names no new value, clears no review flag and has no note leaves the control as it
-- was, but for the mark that nothing changed.
pub update_unchanged :
    (cc : CycleControl) (c : Change)
    → differs c.evidence_status cc.evidence_status ≡ false
    → differs c.assessment_status cc.assessment_status ≡ false
    → differs c.applicability cc.applicability ≡ false
    → differs c.assignee cc.assignee ≡ false
    → confirms_applicability cc c ≡ false
    → (c.note == "") ≡ true
    → apply_cycle_control_update cc c ≡ record cc { was_changed = false }
unfolding apply_cycle_control_update all_changes field_changes note_change new_value judged get
update_unchanged cc c ev jd ap ag con n = rw (ev, jd, ap, ag, con, n) (ground arith)

-- The assessments are numbered from `n` on.
abbrev pub NumberedFrom : ℕ → List Assessment → Type 0
NumberedFrom n [] = Unit
NumberedFrom n (a ∷ r) = (a.assessment_version ≡ n) × NumberedFrom (n + 1) r

NumberedFrom-append :
    (n : ℕ) (rs : List Assessment) (a : Assessment)
    → NumberedFrom n rs
    → a.assessment_version ≡ n + length rs
    → NumberedFrom n (rs ++ a ∷ [])
NumberedFrom-append n [] a h e = (omega (arith, e), tt)
NumberedFrom-append n (x ∷ rs) a h e =
    (h.0, NumberedFrom-append (n + 1) rs a h.1 (omega (arith, e)))

judged-NumberedFrom :
    (cc : CycleControl) (c : Change) → NumberedFrom 1 cc.assessments → NumberedFrom 1 (judged cc c)
unfolding judged
judged-NumberedFrom cc c h = elim (Bool-cases (is_judgment cc c)) [
  | inl p ↦ rw p (NumberedFrom-append 1 cc.assessments _ h (omega arith))
  | inr p ↦ rw p h
]

update-NumberedFrom :
    (cc : CycleControl) (c : Change)
    → NumberedFrom 1 cc.assessments
    → NumberedFrom 1 (apply_cycle_control_update cc c).assessments
unfolding apply_cycle_control_update
update-NumberedFrom cc c h = elim (Bool-cases (is_noop cc c)) [
  | inl p ↦ rw p (judged-NumberedFrom cc c h)
  | inr p ↦ rw p (judged-NumberedFrom cc c h)
]

-- From a control whose assessments are numbered 1, 2, …, any updates lead to one whose are.
pub run_updates-NumberedFrom :
    (cc : CycleControl) (cs : List Change)
    → NumberedFrom 1 cc.assessments
    → NumberedFrom 1 (run_updates cc cs).assessments
run_updates-NumberedFrom cc [] h = h
run_updates-NumberedFrom cc (c ∷ cs) h =
    run_updates-NumberedFrom (apply_cycle_control_update cc c) cs (update-NumberedFrom cc c h)

-- What an update to `status` adds to the assessments.
abbrev pub snapshot_of : CycleControl → Change → Assessment
snapshot_of cc c = record {
  assessment_version = length cc.assessments + 1;
  status = c.assessment_status;
  evidence_set_hash = c.evidence_set_hash;
  assessed_by = c.actor;
  assessed_at = c.now;
  rationale = c.rationale;
  scope_snapshot_id = c.scope_snapshot_id;
}

-- A change of the assessment status to a judgment fixes its grounds as one more assessment; a
-- change to another status, or to the present one, adds none.
pub update_assessments :
    (cc : CycleControl) (c : Change)
    → (apply_cycle_control_update cc c).assessments ≡ (
        if contains assessment_judgments c.assessment_status
          && differs c.assessment_status cc.assessment_status
        then cc.assessments ++ snapshot_of cc c ∷ []
        else cc.assessments)
unfolding apply_cycle_control_update judged
update_assessments cc c = elim (Bool-cases (differs c.assessment_status cc.assessment_status)) [
  | inl p ↦ rw (assessment_noted cc c, p) (ground arith)
  | inr p ↦ rw (assessment_noted cc c, p) (ground arith)
]
