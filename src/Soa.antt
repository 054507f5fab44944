-- ===== src/Soa.antt =====
-- The statement of applicability of ISO 27001: src/mori_soc/services/soa.py. The parts of a control's id
-- are natural numbers; a negative one counts as 0.
use mori_soc.Prelude.{
  ltb, eqb, if◌then◌else◌, length, count_if, or_text, strip, read_int, ℕ, String, ◌<>◌, Bool, true,
  false, not, ◌&&◌, ◌||◌, Option, none, some, List, [], ◌∷◌, map, ◌==◌, refl, ◌≡◌,
}
use mori_soc.Prelude.Dict.{Dict, get, or_value, is_some}
use mori_soc.ScopeCoverage.{onto_first}
use mori_soc.Csv.Export.{Cell, text, safe_rows}
use mori_soc.Csv.Import.{join_with}
use Prim.Native.Char.{code}
pub mod Rows
pub mod Table

-- A control of the catalog.
pub record Control : Type 0 where
  pub framework : String
  pub id : String
  pub title_en : String
  pub title_ko : String
  pub intent_en : String
  pub intent_ko : String
  pub evidence_sources : List String
  pub status : String

-- What the operator notes of a control.
pub record ControlStatus : Type 0 where
  pub status : String
  pub exception_reason : String
  pub owner : String

pub record SoaRow : Type 0 where
  pub id : String
  pub title : String
  pub applicable : Bool
  pub impl_status : String
  pub justification : String
  pub owner : String
  pub evidence_sources : List String
  pub reviewed : Bool

-- `_IMPL_EN`
abbrev pub impl_en : Dict String
impl_en =
    ("이행", "Implemented")
    ∷ ("부분이행", "Partially implemented")
    ∷ ("미이행", "Not implemented")
    ∷ ("미정", "Planned")
    ∷ ("해당없음", "N/A")
    ∷ []

abbrev pub not_applicable : String
not_applicable = "해당없음"

abbrev pub no_status : ControlStatus
no_status = record { status = ""; exception_reason = ""; owner = "" }

abbrev pub justify : Bool → String → Control → String
justify applicable reason c =
    if not applicable
    then or_text reason "Not applicable to the scope."
    else or_text reason (or_text c.intent_en (or_text c.intent_ko "Adopted as a baseline control."))

-- The body of the loop, with the status that is noted.
unfoldable pub soa_row : Control → ControlStatus → SoaRow
unfolding strip get
soa_row c st =
    let raw = strip st.status in
    let applicable = not (raw == not_applicable) in
    let reason = strip st.exception_reason in
    record {
      id = c.id;
      title = or_text c.title_en c.title_ko;
      applicable = applicable;
      impl_status = or_value (get impl_en raw) (if applicable then "Planned" else "N/A");
      justification = justify applicable reason c;
      owner = st.owner;
      evidence_sources = c.evidence_sources;
      reviewed = c.status == "reviewed";
    }

abbrev pub is_iso : Control → Bool
is_iso c = c.framework == "iso27001"

unfoldable pub rows_of : Dict ControlStatus → List Control → List SoaRow
unfolding soa_row get
rows_of status_map [] = []
rows_of status_map (c ∷ cs) =
    let rest = rows_of status_map cs in
    if is_iso c then soa_row c (or_value (get status_map c.id) no_status) ∷ rest else rest

-- `cid.replace("A.", "")`
unfoldable pub drop_annex : String → String
drop_annex String.[] = String.[]
drop_annex (String.◌∷◌ c String.[]) = String.◌∷◌ c String.[]
drop_annex (String.◌∷◌ c (String.◌∷◌ d s)) =
    let rest = drop_annex s in
    let tail = drop_annex (String.◌∷◌ d s) in
    if eqb (code c) 65 && eqb (code d) 46 then rest else String.◌∷◌ c tail

-- `s.split(".")`
unfoldable pub split_dots : String → List String
split_dots String.[] = "" ∷ []
split_dots (String.◌∷◌ c s) =
    let rest = split_dots s in if eqb (code c) 46 then "" ∷ rest else onto_first c rest

-- `_sortkey`
unfoldable pub sort_key : String → List ℕ
unfolding drop_annex split_dots read_int
sort_key cid = map (λ p. or_value (read_int p) 0) (split_dots (drop_annex cid))

-- `<` on lists
unfoldable pub key_lt : List ℕ → List ℕ → Bool
key_lt ms [] = false
key_lt [] (n ∷ ns) = true
key_lt (m ∷ ms) (n ∷ ns) = let rest = key_lt ms ns in ltb m n || (eqb m n && rest)

-- `rows.sort`, which keeps the order of rows with the same key
unfoldable pub insert_row : SoaRow → List SoaRow → List SoaRow
unfolding sort_key key_lt
insert_row r [] = r ∷ []
insert_row r (x ∷ xs) =
    let rest = insert_row r xs in
    if key_lt (sort_key x.id) (sort_key r.id) then x ∷ rest else r ∷ x ∷ xs

unfoldable pub sort_rows : List SoaRow → List SoaRow
unfolding insert_row
sort_rows [] = []
sort_rows (r ∷ rs) = insert_row r (sort_rows rs)

unfoldable pub build_soa_rows : List Control → Dict ControlStatus → List SoaRow
unfolding rows_of sort_rows
build_soa_rows controls status_map = sort_rows (rows_of status_map controls)

pub record SoaSummary : Type 0 where
  pub total : ℕ
  pub applicable : ℕ
  pub excluded : ℕ
  pub implemented : ℕ
  pub evidence_wired : ℕ

abbrev pub is_wired : SoaRow → Bool
is_wired r = elim r.evidence_sources [ [] ↦ false | _ ∷ _ ↦ true ]

unfoldable pub soa_summary : List SoaRow → SoaSummary
soa_summary rows = record {
  total = length rows;
  applicable = count_if (λ (r : SoaRow). r.applicable) rows;
  excluded = count_if (λ (r : SoaRow). not r.applicable) rows;
  implemented = count_if (λ (r : SoaRow). r.impl_status == "Implemented") rows;
  evidence_wired = count_if is_wired rows;
}

abbrev pub soa_header : List Cell
soa_header =
    text "Control"
    ∷ text "Title"
    ∷ text "Applicable"
    ∷ text "Implementation"
    ∷ text "Justification"
    ∷ text "Owner"
    ∷ text "Evidence sources"
    ∷ text "Reviewed"
    ∷ []

unfoldable pub soa_cells : SoaRow → List Cell
soa_cells r =
    text r.id
    ∷ text r.title
    ∷ text (if r.applicable then "Yes" else "No")
    ∷ text r.impl_status
    ∷ text r.justification
    ∷ text r.owner
    ∷ text (join_with ", " r.evidence_sources)
    ∷ text (if r.reviewed then "reviewed" else "draft")
    ∷ []

unfoldable pub soa_to_csv : List SoaRow → String
unfolding soa_cells safe_rows
soa_to_csv rows = safe_rows (soa_header ∷ map soa_cells rows)
