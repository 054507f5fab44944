-- ===== src/Tests/Declared.antt =====
-- A statement of applicability with three controls.
use mori_soc.Prelude.{
  String, ◌==◌, ◌&&◌, Bool, All, count_if, map, ◌+◌, ◌≤◌, ◌≡◌, refl, false, some, List, [], ◌∷◌,
  arith,
}
use mori_soc.Prelude.Dict.{Dict, get}
use mori_soc.Csv.Format.{read_rows}
use mori_soc.Csv.Cells.{IsInert}
use mori_soc.Csv.Export.{defuse}
use mori_soc.Csv.Import.{join_with}
use mori_soc.Soa.{
  Control, ControlStatus, SoaRow, is_iso, build_soa_rows, soa_summary, soa_to_csv, soa_cells,
}
use mori_soc.Soa.Rows.{row_passes, control_passes, IsDeclared, build_soa_rows-IsDeclared}
use mori_soc.Soa.Table.{soa_fields, soa_to_csv-IsInert}

abbrev catalog : List Control
catalog =
    record {
      framework = "iso27001";
      id = "A.5.10";
      title_en = "Use";
      title_ko = "";
      intent_en = "";
      intent_ko = "";
      evidence_sources = [];
      status = "draft";
    }
    ∷ record {
      framework = "isms-p";
      id = "1.1.1";
      title_en = "";
      title_ko = "";
      intent_en = "";
      intent_ko = "";
      evidence_sources = [];
      status = "";
    }
    ∷ record {
      framework = "iso27001";
      id = "A.5.9";
      title_en = "";
      title_ko = "Assets";
      intent_en = "Know them";
      intent_ko = "";
      evidence_sources = "fleet" ∷ "zabbix" ∷ [];
      status = "reviewed";
    }
    ∷ []

abbrev statuses : Dict ControlStatus
statuses =
    ("A.5.10", record { status = " 해당없음"; exception_reason = "=no use"; owner = "kim" })
    ∷ ("A.5.9", record { status = "이행"; exception_reason = ""; owner = "" })
    ∷ []

the_ninth_comes_first :
    (map (λ (r : SoaRow). r.id) (build_soa_rows catalog statuses) ≡ "A.5.9" ∷ "A.5.10" ∷ [])
    × (map (λ (r : SoaRow). r.impl_status) (build_soa_rows catalog statuses)
        ≡ "Implemented" ∷ "N/A" ∷ [])
    × (map (λ (r : SoaRow). r.justification) (build_soa_rows catalog statuses)
        ≡ "Know them" ∷ "=no use" ∷ [])
unfolding build_soa_rows get
the_ninth_comes_first = (refl, refl, refl)

abbrev is_ninth : String → String → List String → Bool → Bool
is_ninth id title sources applicable = id == "A.5.9" && applicable

build_soa_rows-IsDeclared_example :
    let rows = build_soa_rows catalog statuses in
    let s = soa_summary rows in
    (count_if (row_passes is_ninth) rows ≡ count_if (control_passes is_ninth statuses) catalog)
    × All IsDeclared rows
    × (s.total ≡ count_if is_iso catalog)
    × (s.applicable + s.excluded ≡ s.total)
    × (s.implemented ≤ s.applicable)
build_soa_rows-IsDeclared_example = build_soa_rows-IsDeclared catalog statuses is_ninth

abbrev rows : List SoaRow
rows =
    record {
      id = "A.5.10";
      title = "Use, \"fair\"";
      applicable = false;
      impl_status = "N/A";
      justification = "=no use";
      owner = "kim";
      evidence_sources = "fleet" ∷ "zabbix" ∷ [];
      reviewed = false;
    }
    ∷ []

the_formula_is_a_text :
    (read_rows 60 (soa_to_csv rows))
    ≡ some (
        ("Control" ∷ "Title" ∷ "Applicable" ∷ "Implementation" ∷ "Justification" ∷ "Owner"
          ∷ "Evidence sources" ∷ "Reviewed" ∷ [])
        ∷ ("A.5.10" ∷ "Use, \"fair\"" ∷ "No" ∷ "N/A" ∷ "'=no use" ∷ "kim" ∷ "fleet, zabbix"
            ∷ "draft" ∷ [])
        ∷ [])
unfolding read_rows soa_to_csv join_with
the_formula_is_a_text = refl

soa_to_csv-IsInert_example :
    (read_rows 60 (soa_to_csv rows) ≡ some (soa_fields rows)) × All (All IsInert) (soa_fields rows)
unfolding soa_cells defuse join_with
soa_to_csv-IsInert_example = soa_to_csv-IsInert 60 rows (omega arith)
