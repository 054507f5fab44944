-- ===== src/Governance/Catalog/Import.antt =====
-- The import of the old catalog: nothing is lost, and nothing dangles.
use mori_soc.Prelude.{
  if◌then◌else◌, Bool-cases, length, count_if, All, length-append, All-append, or_text, strip, slug,
  ◌+◌, String, ◌≡◌, refl, inl, inr, Bool, true, not, ◌||◌, List, [], ◌∷◌, arith, ◌==◌, eq_refl,
}
use mori_soc.Prelude.Dict.{Dict, get, is_some, put, get-put}
use mori_soc.Governance.Catalog.{
  import_step, StoredDefinition, build_control_definition, CatalogControl, CatalogImport, no_import,
  version_id, draft_version, imported_definition, import_loop, plan_catalog_import,
}
use mori_soc.Governance.Definitions.{ControlDefinition}
use mori_soc.Governance.Lifecycle

-- A control that the import does not leave out.
abbrev pub is_importable : CatalogControl → Bool
is_importable c = not (slug c.framework == "" || strip c.id == "")

module _ (digest : Lifecycle.Record → String)
    (definition_hash : String → ControlDefinition → String) (now created_by : String) where
  -- The version of a definition is there, and its official text is left to the user.
  abbrev pub IsFiled : Dict Lifecycle.Record → StoredDefinition → Type 0
  IsFiled versions d =
      (is_some (get versions d.framework_version_id) ≡ true)
      × (d.definition.interpretations.official ≡ "")

  IsFiled-put :
      (versions : Dict Lifecycle.Record) (k : String) (v : Lifecycle.Record)
      (ds : List StoredDefinition)
      → All (IsFiled versions) ds
      → All (IsFiled (put versions k v)) ds
  IsFiled-put versions k v [] h = tt
  IsFiled-put versions k v (d ∷ ds) h = (
    (rw (get-put versions k d.framework_version_id v) (ground (arith, h.0.0)), h.0.1),
    IsFiled-put versions k v ds h.1,
  )

  imported-IsFiled :
      (versions : Dict Lifecycle.Record) (v : Lifecycle.Record) (c : CatalogControl)
      (fv cid : String)
      → IsFiled
          (put versions fv v)
          (imported_definition digest definition_hash now created_by c fv cid)
  unfolding build_control_definition get
  imported-IsFiled versions v c fv cid = (rw (get-put versions fv fv v, eq_refl fv) refl, refl)

  abbrev step : CatalogImport → CatalogControl → CatalogImport
  step p c = import_step digest definition_hash now created_by p c

  import_step_lem :
      (p : CatalogImport) (c : CatalogControl)
      → All (IsFiled p.framework_versions) p.control_definitions
      → All (IsFiled (step p c).framework_versions) (step p c).control_definitions
        × (length (step p c).control_definitions
            ≡ length p.control_definitions + (if is_importable c then 1 else 0))
  import_step_lem p c h = elim (Bool-cases (slug c.framework == "" || strip c.id == "")) [
    | inl e ↦ rw e (h, omega arith)
    | inr e ↦
        let fw = slug c.framework in
        let cid = strip c.id in
        let ver = or_text (strip c.version) "current" in
        let fv = version_id fw ver in
        let v = draft_version digest definition_hash now created_by fw ver in
        let d = imported_definition digest definition_hash now created_by c fv cid in
        rw e (
          All-append (IsFiled (put p.framework_versions fv v)) p.control_definitions (d ∷ [])
              (IsFiled-put p.framework_versions fv v p.control_definitions h)
              (imported-IsFiled p.framework_versions v c fv cid, tt),
          length-append p.control_definitions (d ∷ []),
        )
  ]

  import_loop_lem :
      (p : CatalogImport) (cs : List CatalogControl)
      → All (IsFiled p.framework_versions) p.control_definitions
      → let q = import_loop digest definition_hash now created_by p cs in
        All (IsFiled q.framework_versions) q.control_definitions
        × (length q.control_definitions ≡ length p.control_definitions + count_if is_importable cs)
  unfolding import_loop
  import_loop_lem p [] h = (h, omega arith)
  import_loop_lem p (c ∷ cs) h =
      let (kept, grown) = import_step_lem p c h in
      let (filed, count) = import_loop_lem (step p c) cs kept in
      (filed, ground (arith, grown, count))

  -- An import makes one definition of each control that has a framework and an identity; each belongs to
  -- one of the versions that the import makes, and has no official text.
  pub plan_catalog_import_lem :
      (cs : List CatalogControl)
      → let q = plan_catalog_import digest definition_hash now created_by cs in
        All (IsFiled q.framework_versions) q.control_definitions
        × (length q.control_definitions ≡ count_if is_importable cs)
  unfolding plan_catalog_import
  plan_catalog_import_lem cs =
      let (filed, count) = import_loop_lem no_import cs tt in (filed, omega (arith, count))
