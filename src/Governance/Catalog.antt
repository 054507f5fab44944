-- ===== src/Governance/Catalog.antt =====
-- What is built around the versions: catalog imports, scope snapshots, organization controls with their
-- crosswalk, overlays, contracts and mappings: src/mori_soc/services/control_governance.py.
use mori_soc.Prelude.{
  if◌then◌else◌, length, or_text, contains, text_lt, strip, slug, show_nat, before_colon, ℕ, ◌+◌,
  ◌<◌, String, ◌<>◌, Bool, true, not, ◌&&◌, ◌||◌, Option, none, List, [], ◌∷◌, ◌++◌, map, ◌==◌,
}
use mori_soc.Prelude.Dict.{append_to, Dict, get, is_some, or_value, put, keys}
use mori_soc.Governance.Cycle.{Value, text, flag}
use mori_soc.Governance.Definitions.{Interpretations, ControlDefinition}
use mori_soc.Governance.Lifecycle
pub mod Crosswalk
pub mod Import

pub record Framework : Type 0 where
  pub id : String
  pub name : String
  pub kind : String
  pub publisher : String
  pub created_at : String
  pub created_by : String

unfoldable pub build_framework : String → String → String → String → Framework
unfolding slug
build_framework framework_id name now created_by = record {
  id = slug framework_id;
  name = name;
  kind = "certification";
  publisher = "";
  created_at = now;
  created_by = created_by;
}

-- A definition as it is stored, with its version, its parent and the hash of its content.
pub record StoredDefinition : Type 0 where
  pub definition : ControlDefinition
  pub framework_version_id : String
  pub parent_control_id : Option String
  pub content_hash : String
  pub created_at : String
  pub created_by : String

-- A layer that the caller gives replaces what is there.
abbrev pub layered : Interpretations → Dict String → Interpretations
layered i given = record {
  official = or_value (get given "official") i.official;
  mori_summary = or_value (get given "mori_summary") i.mori_summary;
  org_interpretation = or_value (get given "org_interpretation") i.org_interpretation;
  operation_guide = or_value (get given "operation_guide") i.operation_guide;
}

-- The hash of a definition's content is a parameter.
module _ (definition_hash : String → ControlDefinition → String) where
  unfoldable pub build_control_definition :
      String
      → String
      → String
      → String
      → String
      → Option String
      → Dict String
      → String
      → String
      → StoredDefinition
  unfolding slug get
  build_control_definition framework_version_id display_code title control_uid requirement_text
        parent given now created_by =
      let d : ControlDefinition = record {
        id = framework_version_id <> ":" <> slug display_code;
        control_uid = slug (or_text control_uid display_code);
        display_code = display_code;
        title = title;
        requirement_text = requirement_text;
        interpretations =
            layered
              (record {
                official = requirement_text;
                mori_summary = "";
                org_interpretation = "";
                operation_guide = "";
              })
              given;
      } in
      record {
        definition = d;
        framework_version_id = framework_version_id;
        parent_control_id = parent;
        content_hash = definition_hash framework_version_id d;
        created_at = now;
        created_by = created_by;
      }

-- An asset of a scope: an identity, or a record by field.
pub data AssetRef : Type 0 where
  asset_named : String → AssetRef
  asset_fields : Dict String → AssetRef

abbrev pub frozen_asset_fields : List String
frozen_asset_fields =
    "asset_id" ∷ "hostname" ∷ "ip" ∷ "owner" ∷ "criticality" ∷ "service" ∷ "inclusion_reason"
    ∷ "source" ∷ []

-- `{k: a.get(k, "") for k in fields}`
abbrev pub pick_fields : List String → Dict String → Dict String
pick_fields [] a = []
pick_fields (k ∷ ks) a = (k, or_value (get a k) "") ∷ pick_fields ks a

unfoldable pub freeze_asset : AssetRef → Dict String
unfolding get put
freeze_asset (asset_fields a) = pick_fields frozen_asset_fields a
freeze_asset (asset_named s) = put (pick_fields frozen_asset_fields []) "asset_id" s

pub record ScopeSnapshot : Type 0 where
  pub id : String
  pub services : List String
  pub assets : List (Dict String)
  pub organizations : List String
  pub locations : List String
  pub data_processes : List String
  pub approved_by : String
  pub source_query : String
  pub change_reason : String
  pub created_at : String
  pub created_by : String

unfoldable pub build_scope_snapshot : ScopeSnapshot → List AssetRef → ScopeSnapshot
unfolding slug freeze_asset
build_scope_snapshot given assets = record given {
  id = slug given.id;
  assets = map freeze_asset assets;
}

-- A member of `mapped_controls`: an identity, or a record.
pub data MappedControl : Type 0 where
  mapped_id : String → MappedControl
  mapped_record : String → String → String → String → String → MappedControl

pub record MappingEntry : Type 0 where
  pub control_id : String
  pub coverage_role : String
  pub coverage_type : String
  pub limitations : String

-- The fields of a record: `control_id`, `id`, role, type and limitations.
abbrev pub mapping_entry : MappedControl → MappingEntry
mapping_entry (mapped_id m) = record {
  control_id = m;
  coverage_role = "unspecified";
  coverage_type = "unspecified";
  limitations = "";
}
mapping_entry (mapped_record control_id id role kind limitations) = record {
  control_id = or_text control_id id;
  coverage_role = or_text role "unspecified";
  coverage_type = or_text kind "unspecified";
  limitations = limitations;
}

pub record OrganizationControl : Type 0 where
  pub id : String
  pub code : String
  pub title : String
  pub owner_team : String
  pub frequency : String
  pub scope : String
  pub mapped_controls : List MappedControl
  pub version : ℕ
  pub supersedes : Option String
  pub status : String
  pub created_at : String
  pub created_by : String

unfoldable pub build_organization_control : OrganizationControl → OrganizationControl
unfolding slug show_nat
build_organization_control given = record given {
  id = slug given.code <> ":v" <> show_nat given.version;
  status = "draft";
}

abbrev pub framework_of : MappingEntry → String
framework_of e = before_colon e.control_id

unfoldable pub group_mappings :
    Dict (List MappingEntry) → List MappedControl → Dict (List MappingEntry)
unfolding append_to before_colon
group_mappings by_fw [] = by_fw
group_mappings by_fw (m ∷ r) =
    group_mappings (append_to by_fw (framework_of (mapping_entry m)) (mapping_entry m)) r

-- `sorted(d)`; the keys differ.
unfoldable pub insert_text : String → List String → List String
unfolding text_lt
insert_text k [] = k ∷ []
insert_text k (j ∷ r) = let rest = insert_text k r in if text_lt j k then j ∷ rest else k ∷ j ∷ r

unfoldable pub sort_texts : List String → List String
unfolding insert_text
sort_texts [] = []
sort_texts (k ∷ r) = insert_text k (sort_texts r)

pub record CrosswalkRow : Type 0 where
  pub organization_control_id : String
  pub code : String
  pub title : String
  pub frameworks : List String
  pub framework_count : ℕ
  pub mappings : Dict (List MappingEntry)

unfoldable pub crosswalk_row : OrganizationControl → CrosswalkRow
unfolding group_mappings sort_texts
crosswalk_row oc =
    let by_fw = group_mappings [] oc.mapped_controls in
    record {
      organization_control_id = oc.id;
      code = oc.code;
      title = oc.title;
      frameworks = sort_texts (keys by_fw);
      framework_count = length by_fw;
      mappings = by_fw;
    }

abbrev pub add_text : List String → String → List String
add_text set k = if contains set k then set else set ++ k ∷ []

-- `fw_set`
unfoldable pub all_frameworks : List String → List MappedControl → List String
unfolding before_colon
all_frameworks set [] = set
all_frameworks set (m ∷ r) = all_frameworks (add_text set (framework_of (mapping_entry m))) r

unfoldable pub frameworks_of : List String → List OrganizationControl → List String
unfolding all_frameworks
frameworks_of set [] = set
frameworks_of set (oc ∷ r) = frameworks_of (all_frameworks set oc.mapped_controls) r

unfoldable pub build_crosswalk : List OrganizationControl → List CrosswalkRow × List String
unfolding crosswalk_row frameworks_of sort_texts
build_crosswalk org_controls =
    (map crosswalk_row org_controls, sort_texts (frameworks_of [] org_controls))

abbrev pub overlay_fields : List String
overlay_fields = "owner_team" ∷ "frequency" ∷ "scope" ∷ "evidence_sources" ∷ "approver" ∷ []

pub record OverlayView : Type 0 where
  pub control_id : String
  pub display_code : String
  pub title : String
  pub base_requirement : String
  pub base_content_hash : String
  pub overlay : Dict String
  pub conflict : Bool

unfoldable pub apply_overlay : StoredDefinition → Dict String → OverlayView
unfolding get
apply_overlay c overlay =
    let d = c.definition in
    let reviewed_hash = or_value (get overlay "reviewed_base_hash") "" in
    record {
      control_id = d.id;
      display_code = d.display_code;
      title = d.title;
      base_requirement = or_text d.interpretations.official d.requirement_text;
      base_content_hash = c.content_hash;
      overlay = pick_fields overlay_fields overlay;
      conflict = not (reviewed_hash == "") && not (reviewed_hash == c.content_hash);
    }

-- One control of the old catalog; a field that is missing is "".
pub record CatalogControl : Type 0 where
  pub framework : String
  pub version : String
  pub id : String
  pub title_ko : String
  pub title_en : String
  pub intent_ko : String
  pub intent_en : String
  pub evidence_hint_ko : String
  pub evidence_hint_en : String

pub record CatalogImport : Type 0 where
  pub frameworks : Dict Framework
  pub framework_versions : Dict Lifecycle.Record
  pub control_definitions : List StoredDefinition

abbrev pub no_import : CatalogImport
no_import = record { frameworks = []; framework_versions = []; control_definitions = [] }

abbrev pub import_license : Dict Value
import_license =
    ("content_origin", text "mori_summary")
    ∷ ("redistribution_allowed", flag true)
    ∷ ("modification_allowed", flag true)
    ∷ []

-- `fv["id"]`
abbrev pub version_id : String → String → String
version_id fw ver = slug fw <> ":" <> slug ver

module _ (digest : Lifecycle.Record → String)
    (definition_hash : String → ControlDefinition → String) (now created_by : String) where
  abbrev pub draft_version : String → String → Lifecycle.Record
  draft_version fw ver = Lifecycle.build_framework_version digest (record {
    framework_id = fw;
    version = ver;
    effective_from = "";
    effective_to = Lifecycle.null;
    status = "draft";
    source_type = "user_upload";
    source_hash = "";
    supersedes = Lifecycle.null;
    change_reason = "";
    importer_version = "";
    license_meta = import_license;
    now = now;
    created_by = created_by;
  })

  abbrev pub imported_definition : CatalogControl → String → String → StoredDefinition
  imported_definition c fv cid =
      build_control_definition definition_hash fv cid (or_text (or_text c.title_ko c.title_en) cid)
        cid "" none
        (("mori_summary", or_text c.intent_ko c.intent_en)
          ∷ ("operation_guide", or_text c.evidence_hint_ko c.evidence_hint_en)
          ∷ [])
        now created_by

  -- One control that has a framework and an identity.
  abbrev pub import_control : CatalogImport → CatalogControl → String → String → CatalogImport
  import_control p c fw cid =
      let fv = version_id fw (or_text (strip c.version) "current") in
      record {
        frameworks =
            if is_some (get p.frameworks fw)
            then p.frameworks
            else put p.frameworks fw (build_framework fw (or_text c.framework fw) now created_by);
        framework_versions =
            put p.framework_versions fv (draft_version fw (or_text (strip c.version) "current"));
        control_definitions = p.control_definitions ++ imported_definition c fv cid ∷ [];
      }

  abbrev pub import_step : CatalogImport → CatalogControl → CatalogImport
  import_step p c =
      let fw = slug c.framework in
      let cid = strip c.id in if fw == "" || cid == "" then p else import_control p c fw cid

  unfoldable pub import_loop : CatalogImport → List CatalogControl → CatalogImport
  unfolding slug strip get put build_framework build_control_definition
  import_loop p [] = p
  import_loop p (c ∷ r) = import_loop (import_step p c) r

  unfoldable pub plan_catalog_import : List CatalogControl → CatalogImport
  unfolding import_loop
  plan_catalog_import controls = import_loop no_import controls
