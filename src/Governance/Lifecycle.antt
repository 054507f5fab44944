-- ===== src/Governance/Lifecycle.antt =====
-- src/mori_soc/services/control_governance.py: framework versions, their content hash and their
-- lifecycle.
pub mod Hash
pub mod States
use mori_soc.Prelude.{
  String, ◌<>◌, Bool, false, not, ◌&&◌, ◌==◌, if◌then◌else◌, List, [], ◌∷◌, ◌++◌, Option, none,
  some, or_text, contains, text_le, slug,
}
use mori_soc.Prelude.Dict.{Dict, get, put}
use mori_soc.Governance.Cycle.{Value, text, flag}

pub record Event : Type 0 where
  pub ts : String
  pub actor : String
  pub to : String

-- A value of a framework version's record.
pub data Field : Type 0 where
  str : String → Field
  null : Field
  license : Dict Value → Field
  events : List Event → Field

abbrev pub Record : Type 0
Record = Dict Field

-- Fields that are no content: lifecycle, audit and the hash's own.
abbrev pub hash_volatile : List String
hash_volatile =
    "content_hash" ∷ "created_at" ∷ "updated_at" ∷ "created_by" ∷ "id" ∷ "status" ∷ "activated_at"
    ∷ "activated_by" ∷ "retired_at" ∷ "retired_by" ∷ "effective_to" ∷ "lifecycle" ∷ "history"
    ∷ "canonicalization" ∷ "hash_algorithm" ∷ "applicability_pending_review" ∷ []

-- `{k: v for k, v in record.items() if k not in exclude}`
unfoldable pub content : Record → Record
content [] = []
content ((k, v) ∷ r) =
    let rest = content r in if contains hash_volatile k then rest else (k, v) ∷ rest

-- The two texts of a framework version's record that other code reads.
abbrev pub str_of : Option Field → String
str_of (some (str s)) = s
str_of _ = ""

abbrev pub events_of : Option Field → List Event
events_of (some (events l)) = l
events_of _ = []

-- The keyword arguments of `build_framework_version`.
pub record VersionArgs : Type 0 where
  pub framework_id : String
  pub version : String
  pub effective_from : String
  pub effective_to : Field
  pub status : String
  pub source_type : String
  pub source_hash : String
  pub supersedes : Field
  pub change_reason : String
  pub importer_version : String
  pub license_meta : Dict Value
  pub now : String
  pub created_by : String

-- `str(lic.get(k) or "")`
abbrev license_text : Option Value → Value
license_text none = text ""
license_text (some (text s)) = text s
license_text (some (flag b)) = text (if b then "True" else "")

-- `bool(lic.get(k, False))`
abbrev license_flag : Option Value → Value
license_flag none = flag false
license_flag (some (text s)) = flag (not (s == ""))
license_flag (some (flag b)) = flag b

license_of : Dict Value → Dict Value
license_of lic =
    ("content_origin", license_text (get lic "content_origin"))
    ∷ ("license", license_text (get lic "license"))
    ∷ ("redistribution_allowed", license_flag (get lic "redistribution_allowed"))
    ∷ ("modification_allowed", license_flag (get lic "modification_allowed"))
    ∷ ("commercial_use_allowed", license_flag (get lic "commercial_use_allowed"))
    ∷ ("source_url", license_text (get lic "source_url"))
    ∷ ("imported_by_user", license_flag (get lic "imported_by_user"))
    ∷ []

-- `digest` is the SHA-256 of the canonical JSON.
module _ (digest : Record → String) where
  unfoldable pub content_hash : Record → String
  unfolding content
  content_hash r = "sha256:" <> digest (content r)

  unfoldable pub stamp_hash : Record → Record
  stamp_hash r =
      put (put (put r "content_hash" (str (content_hash r))) "canonicalization" (str "mori-jcs-v1"))
        "hash_algorithm" (str "sha256")

  unfoldable pub build_framework_version : VersionArgs → Record
  unfolding stamp_hash license_of
  build_framework_version a =
      let fid = slug a.framework_id in
      let fv_id = fid <> ":" <> slug a.version in
      put
        (stamp_hash (
          ("id", str fv_id)
          ∷ ("framework_version_id", str fv_id)
          ∷ ("framework_id", str fid)
          ∷ ("version", str a.version)
          ∷ ("effective_from", str a.effective_from)
          ∷ ("effective_to", a.effective_to)
          ∷ ("status", str a.status)
          ∷ ("source_type", str a.source_type)
          ∷ ("source_hash", str a.source_hash)
          ∷ ("supersedes", a.supersedes)
          ∷ ("change_reason", str a.change_reason)
          ∷ ("importer_version", str a.importer_version)
          ∷ ("license", license (license_of a.license_meta))
          ∷ ("created_at", str a.now)
          ∷ ("created_by", str a.created_by)
          ∷ []))
        "lifecycle" (events (record { ts = a.now; actor = a.created_by; to = a.status } ∷ []))

-- draft → active → retired
abbrev pub version_transitions : Dict (List String)
version_transitions = ("active", "draft" ∷ []) ∷ ("retired", "active" ∷ []) ∷ []

abbrev pub sources : Option (List String) → List String
sources none = []
sources (some l) = l

unfoldable pub can_version_transition : String → String → Bool
unfolding get
can_version_transition current target =
    contains (sources (get version_transitions target)) (or_text current "draft")

-- The truth value of a field: `rec.get("effective_to") or now`.
abbrev pub or_field : Option Field → String → Field
or_field none now = str now
or_field (some null) now = str now
or_field (some (str s)) now = str (or_text s now)
or_field (some v) now = v

unfoldable pub stamp_state : Record → String → String → String → Record
stamp_state r target actor now =
    if target == "active"
    then put (put r "activated_at" (str now)) "activated_by" (str actor)
    else if target == "retired"
    then (let r' = put (put r "retired_at" (str now)) "retired_by" (str actor) in
        put r' "effective_to" (or_field (get r' "effective_to") now))
    else r

unfoldable pub apply_version_lifecycle : Record → String → String → String → Record
unfolding stamp_state
apply_version_lifecycle r target actor now =
    let r' = stamp_state (put r "status" (str target)) target actor now in
    put r' "lifecycle" (
      events
        (events_of (get r' "lifecycle") ++ record { ts = now; actor = actor; to = target } ∷ []))

unfoldable pub is_mutable_version : Record → Bool
is_mutable_version r = or_text (str_of (get r "status")) "draft" == "draft"

unfoldable pub periods_overlap : String → String → String → String → Bool
periods_overlap a_from a_to b_from b_to =
    text_le (or_text a_from "0000-01-01") (or_text b_to "9999-12-31")
    && text_le (or_text b_from "0000-01-01") (or_text a_to "9999-12-31")
