-- ===== src/Governance/Catalog/Crosswalk.antt =====
-- The crosswalk and the overlay: what they show of the organization's controls.
use mori_soc.Prelude.{
  if◌then◌else◌, Bool-cases, select, contains, String, ◌≡◌, refl, sym, ◌∙◌, inl, inr, none, some,
  List, [], ◌∷◌, ◌++◌, map, arith, ◌==◌, eq_iff,
}
use mori_soc.Prelude.Dict.{Dict, get, or_value, put, list_of, append_to, get-append_to}
use mathlib.Core.List.{append-nil, append_assoc}
use mori_soc.Governance.Catalog.{
  AssetRef, pick_fields, freeze_asset, MappedControl, MappingEntry, mapping_entry,
  OrganizationControl, framework_of, group_mappings, crosswalk_row, asset_named, asset_fields,
}

group_mappings_lem :
    (d : Dict (List MappingEntry)) (ms : List MappedControl) (fw : String)
    → list_of (group_mappings d ms) fw
      ≡ list_of d fw ++ select (λ e. framework_of e == fw) (map mapping_entry ms)
unfolding group_mappings
group_mappings_lem d [] fw = sym (append-nil (list_of d fw))
group_mappings_lem d (m ∷ ms) fw =
    let e = mapping_entry m in
    group_mappings_lem (append_to d (framework_of e) e) ms fw
    ∙ rw (get-append_to d (framework_of e) fw e) (elim (Bool-cases (framework_of e == fw)) [
      | inl f ↦ rw f (
          append_assoc (list_of d fw) (e ∷ [])
            (select (λ e. framework_of e == fw) (map mapping_entry ms)))
      | inr f ↦ rw f refl
    ])

-- The row of an organization control has, under each framework, exactly the mappings of the control to
-- that framework, in their order.
pub crosswalk_row_lem :
    (oc : OrganizationControl) (fw : String)
    → list_of (crosswalk_row oc).mappings fw
      ≡ select (λ e. framework_of e == fw) (map mapping_entry oc.mapped_controls)
unfolding crosswalk_row get
crosswalk_row_lem oc fw = group_mappings_lem [] oc.mapped_controls fw

get-pick_fields :
    (ks : List String) (a : Dict String) (k : String)
    → get (pick_fields ks a) k ≡ (if contains ks k then some (or_value (get a k) "") else none)
unfolding get
get-pick_fields [] a k = refl
get-pick_fields (j ∷ ks) a k = ground (arith, get-pick_fields ks a k, eq_iff j k)

-- Freezing a frozen asset changes nothing: a snapshot that is built from another one's assets keeps them.
pub freeze_asset_twice :
    (a : AssetRef) → freeze_asset (asset_fields (freeze_asset a)) ≡ freeze_asset a
unfolding freeze_asset get put
freeze_asset_twice (asset_named s) = refl
freeze_asset_twice (asset_fields a) = refl
