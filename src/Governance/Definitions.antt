-- ===== src/Governance/Definitions.antt =====
-- src/mori_soc/services/control_governance.py: the control definitions of a framework version, their
-- lineage, and the comparison of two versions.
pub mod Diff
use mori_soc.Prelude.{
  String, Bool, true, false, not, ◌&&◌, ◌==◌, if◌then◌else◌, List, [], ◌∷◌, ◌++◌, Option, none,
  some, or_text,
}
use mori_soc.Prelude.Dict.{Dict, get, index_by, is_some}

-- The layers of interpretation; they are never mixed.
pub record Interpretations : Type 0 where
  pub official : String
  pub mori_summary : String
  pub org_interpretation : String
  pub operation_guide : String

pub record ControlDefinition : Type 0 where
  pub id : String
  pub control_uid : String
  pub display_code : String
  pub title : String
  pub requirement_text : String
  pub interpretations : Interpretations

abbrev pub control_uid_of : ControlDefinition → String
control_uid_of c = or_text c.control_uid c.display_code

-- `_control_body`: what the JSON of the body is made of. Two JSON texts over these fixed keys are
-- equal exactly if these texts are.
abbrev pub control_body : ControlDefinition → List String
control_body c =
    c.title ∷ c.requirement_text ∷ c.interpretations.official ∷ c.interpretations.mori_summary
    ∷ c.interpretations.org_interpretation ∷ c.interpretations.operation_guide ∷ []

abbrev pub same_texts : List String → List String → Bool
same_texts [] [] = true
same_texts (x ∷ xs) (y ∷ ys) = x == y && same_texts xs ys
same_texts _ _ = false

abbrev pub body_changed : ControlDefinition → ControlDefinition → Bool
body_changed old new = not (same_texts (control_body old) (control_body new))

abbrev pub code_changed : ControlDefinition → ControlDefinition → Bool
code_changed old new = not (old.display_code == new.display_code)

unfoldable pub migration_reason : ControlDefinition → ControlDefinition → String
migration_reason old new =
    if body_changed old new
    then "text_changed"
    else if code_changed old new
    then "renumbered"
    else "carried"

pub record AddedRow : Type 0 where
  pub control_uid : String
  pub display_code : String
  pub title : String

pub record ChangedRow : Type 0 where
  pub control_uid : String
  pub old_code : String
  pub new_code : String
  pub title : String

pub record VersionDiff : Type 0 where
  pub added : List AddedRow
  pub removed : List AddedRow
  pub renumbered : List ChangedRow
  pub text_changed : List ChangedRow
  pub unchanged : List ChangedRow

abbrev pub row_of : String → ControlDefinition → AddedRow
row_of uid c = record { control_uid = uid; display_code = c.display_code; title = c.title }

abbrev pub pair_row : String → ControlDefinition → ControlDefinition → ChangedRow
pair_row uid old new = record {
  control_uid = uid;
  old_code = old.display_code;
  new_code = new.display_code;
  title = new.title;
}

-- One round of the first loop: the list that the new definition is appended to.
unfoldable pub diff_step :
    Option ControlDefinition → String → ControlDefinition → VersionDiff → VersionDiff
diff_step none uid new d = record d { added = d.added ++ row_of uid new ∷ [] }
diff_step (some old) uid new d =
    if body_changed old new
    then record d { text_changed = d.text_changed ++ pair_row uid old new ∷ [] }
    else if code_changed old new
    then record d { renumbered = d.renumbered ++ pair_row uid old new ∷ [] }
    else record d { unchanged = d.unchanged ++ pair_row uid old new ∷ [] }

unfoldable pub diff_loop :
    Dict ControlDefinition → Dict ControlDefinition → VersionDiff → VersionDiff
unfolding diff_step
diff_loop old_by [] d = d
diff_loop old_by ((uid, new) ∷ r) d = diff_loop old_by r (diff_step (get old_by uid) uid new d)

-- The second loop.
unfoldable pub removed_rows : Dict ControlDefinition → Dict ControlDefinition → List AddedRow
removed_rows [] new_by = []
removed_rows ((uid, old) ∷ r) new_by =
    let rest = removed_rows r new_by in
    if is_some (get new_by uid) then rest else row_of uid old ∷ rest

abbrev pub empty_diff : VersionDiff
empty_diff = record { added = []; removed = []; renumbered = []; text_changed = []; unchanged = [] }

unfoldable pub diff_control_definitions :
    List ControlDefinition → List ControlDefinition → VersionDiff
unfolding diff_loop removed_rows
diff_control_definitions old_controls new_controls =
    let old_by = index_by control_uid_of old_controls in
    let new_by = index_by control_uid_of new_controls in
    record (diff_loop old_by new_by empty_diff) { removed = removed_rows old_by new_by }
