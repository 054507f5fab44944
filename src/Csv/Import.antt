-- ===== src/Csv/Import.antt =====
-- The import of a table: src/mori_soc/services/csv_import.py.
use mori_soc.Prelude.{
  ltb, leb, eqb, if◌then◌else◌, length, select, strip, lower, show_nat, read_int, ℕ, ◌+◌, String,
  ◌<>◌, Bool, true, false, ◌&&◌, ◌||◌, Option, none, some, List, [], ◌∷◌, ◌++◌, ◌==◌,
}
use mori_soc.Prelude.Dict.{Dict, get, or_value, put, keys}
use mori_soc.Csv.Format.{read_rows}
use Prim.Native.Char.{Char, code}

abbrev is_bom : Char → Bool
is_bom c = eqb (code c) 65279

-- `text.lstrip("\ufeff")`
unfoldable pub drop_bom : String → String
drop_bom String.[] = String.[]
drop_bom (String.◌∷◌ c s) = let rest = drop_bom s in if is_bom c then rest else String.◌∷◌ c s

drop_marks : String → String
drop_marks String.[] = String.[]
drop_marks (String.◌∷◌ c s) =
    let rest = drop_marks s in
    if eqb (code c) 32 || eqb (code c) 95 then rest else String.◌∷◌ c rest

-- `h.strip().lower().replace(" ", "").replace("_", "")`
unfoldable pub normalize_header : String → String
unfolding drop_marks strip lower
normalize_header h = drop_marks (lower (strip h))

unfoldable pub max_import_rows : Dict String → ℕ
unfolding read_int get
max_import_rows env =
    or_value (read_int (or_value (get env "MORI_MAX_IMPORT_ROWS") "100000")) 100000

unfoldable pub put_aliases : Dict String → String → List String → Dict String
unfolding normalize_header put
put_aliases d field [] = d
put_aliases d field (a ∷ r) = put_aliases (put d (normalize_header a) field) field r

unfoldable pub alias_to_field : Dict String → Dict (List String) → Dict String
unfolding put_aliases
alias_to_field d [] = d
alias_to_field d ((field, aliases) ∷ r) = alias_to_field (put_aliases d field (field ∷ aliases)) r

-- The field of each column, if it has one.
unfoldable pub column_fields : Dict String → List String → List (Option String)
unfolding normalize_header get
column_fields d [] = []
column_fields d (h ∷ r) = get d (normalize_header h) ∷ column_fields d r

abbrev pub any_some : List (Option String) → Bool
any_some [] = false
any_some (none ∷ r) = any_some r
any_some (some f ∷ r) = true

-- The values of a row under the fields of its columns.
unfoldable pub record_of : Dict String → List (Option String) → List String → Dict String
unfolding put strip
record_of d _ [] = d
record_of d [] (v ∷ vs) = d
record_of d (none ∷ cs) (v ∷ vs) = record_of d cs vs
record_of d (some f ∷ cs) (v ∷ vs) = record_of (put d f (strip v)) cs vs

abbrev pub value_in : Dict String → String → String
value_in d k = or_value (get d k) ""

abbrev pub is_blank : String → Bool
is_blank s = strip s == ""

abbrev pub all_blank : List String → Bool
all_blank [] = true
all_blank (v ∷ vs) = is_blank v && all_blank vs

-- `[r for r in required if not rec.get(r)]`
abbrev pub lacking : List String → Dict String → List String
lacking required d = select (λ k. value_in d k == "") required

unfoldable pub join_with : String → List String → String
join_with sep [] = ""
join_with sep (s ∷ []) = s
join_with sep (s ∷ t ∷ r) = s <> sep <> join_with sep (t ∷ r)

-- The rows and the messages so far.
pub record Imported : Type 0 where
  pub rows : List (Dict String)
  pub errors : List String

abbrev pub missing_message : ℕ → List String → String
missing_message lineno names = show_nat lineno <> "행: 필수값 누락(" <> join_with ", " names <> ") — 건너뜀."

abbrev pub cap_message : ℕ → String
cap_message cap = "행 상한 " <> show_nat cap <> " 초과 — 이후 행 무시."

abbrev pub take_row : ℕ → List String → Dict String → List String → Imported → Imported
take_row lineno required d [] p = record p { rows = p.rows ++ d ∷ [] }
take_row lineno required d (k ∷ ks) p = record p {
  errors = p.errors ++ missing_message lineno (k ∷ ks) ∷ [];
}

abbrev pub is_full : ℕ → Imported → Bool
is_full cap p = ltb 0 cap && leb cap (length p.rows)

-- The loop over the rows below the header, from a line number on.
unfoldable pub import_rows :
    ℕ → List String → List (Option String) → ℕ → List (List String) → Imported → Imported
unfolding record_of get strip
import_rows cap required columns lineno [] p = p
import_rows cap required columns lineno (raw ∷ raws) p = elim (all_blank raw) [
  | true ↦ import_rows cap required columns (lineno + 1) raws p
  | false ↦ elim (is_full cap p) [
    | true ↦ record p { errors = p.errors ++ cap_message cap ∷ [] }
    | false ↦
        let d = record_of [] columns raw in
        import_rows cap required columns (lineno + 1) raws
          (take_row lineno required d (lacking required d) p)
  ]
]

abbrev pub refused : String → Imported
refused why = record { rows = []; errors = why ∷ [] }

unfoldable pub import_table : ℕ → Dict (List String) → List String → List (List String) → Imported
unfolding alias_to_field column_fields import_rows
import_table cap field_aliases required [] = refused "헤더가 없습니다."
import_table cap field_aliases required (header ∷ raws) =
    let columns = column_fields (alias_to_field [] field_aliases) header in
    if any_some columns
    then import_rows cap required columns 2 raws (record { rows = []; errors = [] })
    else refused ("알 수 있는 컬럼이 없습니다(허용: " <> join_with ", " (keys field_aliases) <> ").")

-- The message of a `csv.Error` is a parameter.
unfoldable pub parse_csv :
    ℕ → String → Dict String → String → Dict (List String) → List String → Imported
unfolding drop_bom read_rows max_import_rows import_table strip
parse_csv limit why env text field_aliases required =
    let body = drop_bom text in
    if strip body == "" then refused "빈 CSV 입니다." else elim (read_rows limit body) [
      | none ↦ refused ("CSV 파싱 실패: " <> why)
      | some table ↦ import_table (max_import_rows env) field_aliases required table
    ]
