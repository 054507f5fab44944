-- ===== src/Tests/Catalogs.antt =====
-- The crosswalk and the catalog import at concrete inputs.
use mori_soc.Prelude.{length, show_nat, String, ◌<>◌, none, List, [], ◌∷◌}
use mori_soc.Governance.Catalog.{OrganizationControl, CatalogControl, mapped_id, mapped_record}
use mori_soc.Governance.Definitions.{ControlDefinition}
use mori_soc.Governance.Lifecycle

abbrev backup_policy : OrganizationControl
backup_policy = record {
  id = "oc-1:v1";
  code = "OC-1";
  title = "Backup";
  owner_team = "it";
  frequency = "monthly";
  scope = "";
  mapped_controls =
      mapped_id "isms:1:2.9.3"
      ∷ mapped_record "iso:2022:A.8.13" "" "primary" "full" ""
      ∷ mapped_id "isms:1:2.12.1"
      ∷ [];
  version = 1;
  supersedes = none;
  status = "draft";
  created_at = "2025-01-01";
  created_by = "lee";
}

abbrev size_of : Lifecycle.Record → String
size_of r = show_nat (length r)

abbrev name_of : String → ControlDefinition → String
name_of fv d = fv <> d.id

abbrev old_catalog : List CatalogControl
old_catalog =
    record {
      framework = "ISMS-P";
      version = "";
      id = "2.9.3";
      title_ko = "";
      title_en = "Backup";
      intent_ko = "";
      intent_en = "Recover";
      evidence_hint_ko = "";
      evidence_hint_en = "";
    }
    ∷ []
