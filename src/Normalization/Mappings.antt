-- ===== src/Normalization/Mappings.antt =====
-- `map_envelope` of src/mori_soc/services/normalization.py with the mapping of each type of envelope.
-- The digest and the reading of ISO times are parameters.
use mori_soc.Prelude.{
  if◌then◌else◌, ℕ, String, ◌<>◌, true, Option, none, some, List, [], ◌∷◌, ◌++◌, map, ◌==◌,
}
use mori_soc.Prelude.Dict.{get}
use mori_soc.Inventory.{
  Entity, host, host_alias, alert, vulnerability, query_result, host_observation,
  control_check_result, directory_account, privilege_binding, group_membership, account_observation,
}
use mori_soc.Inventory.Entities.{text}
use mori_soc.Normalization.Values.{
  Value, Envelope, value_of, or_string, or_else, extract_aliases, host_status, is_nonzero, truthy,
  moment_of, texts_of, text_list, fields_of, get_field, field_text, json, moment,
}
use mori_soc.Normalization.Hosts.{Mapper, short_id, resolve_host_id}

-- What a mapping gives, or the error of a type that it does not know.
pub data Mapping : Type 0 where
  mapped : Mapper → List Entity → Mapping
  unsupported : String → Mapping

-- The parameters of the identities, and of the times.
module _ (digest : String → String) (fromisoformat : String → Option ℕ) where
  abbrev pub build_alias : String → String → ℕ → String → Entity
  build_alias host_id source observed_at alias = host_alias (record {
    alias_id = short_id digest (host_id ∷ source ∷ "source_alias" ∷ alias ∷ []) "alias";
    host_id = host_id;
    source = source;
    alias_type = "source_alias";
    alias_value = alias;
    confidence = "1.0";
    is_primary = true;
    first_seen_at = some observed_at;
    last_seen_at = some observed_at;
  })

  abbrev pub build_alias_records : String → List String → Envelope → List Entity
  build_alias_records host_id aliases e = map (build_alias host_id e.source e.observed_at) aliases

  abbrev pub seen_host :
      Envelope → String → String → Option String → Option String → String → Entity
  seen_host e host_id hostname platform primary_ip status = host (record {
    host_id = host_id;
    hostname = hostname;
    platform = platform;
    primary_ip = primary_ip;
    status = status;
    risk_score = 0;
    first_seen_at = some e.observed_at;
    last_seen_at = some e.observed_at;
  })

  unfoldable pub map_host_observation : Mapper → Envelope → Mapping
  unfolding extract_aliases resolve_host_id get
  map_host_observation m e =
      let (alias, aliases) = extract_aliases e in
      let (next, host_id) = resolve_host_id digest m e.source aliases ("host-" <> e.entity_id) in
      mapped next (
        seen_host e host_id (or_string (value_of e "hostname") (or_string alias host_id))
          (value_of e "platform") (value_of e "primary_ip") (host_status (value_of e "status"))
        ∷ (build_alias_records host_id aliases e
            ++ host_observation (record {
              observation_id = e.entity_id;
              source = e.source;
              host_id = host_id;
              observation_type = or_string (value_of e "observation_type") "status";
              metric_name = or_string (value_of e "metric_name") "unknown_metric";
              observed_at = e.observed_at;
              metric_value = value_of e "metric_value";
              unit = value_of e "unit";
              severity = value_of e "severity";
              raw_ref = e.raw_ref;
              raw_payload = e.raw_payload;
            })
              ∷ []))

  abbrev pub named_host : Envelope → String → Option String → Option String → List Entity
  named_host e host_id none platform = []
  named_host e host_id (some hostname) platform =
      seen_host e host_id hostname platform none "unknown" ∷ []

  unfoldable pub map_query_result : Mapper → Envelope → Mapping
  unfolding extract_aliases resolve_host_id get get_field
  map_query_result m e =
      let (alias, aliases) = extract_aliases e in
      let (next, host_id) = resolve_host_id digest m e.source aliases ("host-" <> e.entity_id) in
      let result_json = fields_of (get e.normalized "result_json") in
      let hostname =
        or_else (value_of e "hostname") (or_else (field_text result_json "hostname") alias) in
      let platform = or_else (value_of e "platform") (field_text result_json "platform") in
      mapped next (
        named_host e host_id hostname platform
        ++ (build_alias_records host_id aliases e
            ++ query_result (record {
              query_result_id = e.entity_id;
              host_id = host_id;
              observed_at = e.observed_at;
              result_json = result_json;
              source = e.source;
              query_name = value_of e "query_name";
              query_text = value_of e "query_text";
              raw_ref = e.raw_ref;
            })
              ∷ []))

  abbrev pub alert_of : Envelope → Option String → Entity
  alert_of e host_id = alert (record {
    alert_id = e.entity_id;
    source = e.source;
    observed_at = e.observed_at;
    message = or_string (value_of e "message") "alert";
    host_id = host_id;
    source_event_id = value_of e "source_event_id";
    severity = or_string (value_of e "severity") "info";
    original_severity = value_of e "original_severity";
    rule_name = value_of e "rule_name";
    rule_id = value_of e "rule_id";
    resolved_at = moment_of (get e.normalized "resolved_at");
    raw_ref = e.raw_ref;
    raw_payload = e.raw_payload;
  })

  abbrev pub alert_on : Mapper → Envelope → Option String → List String → Mapping
  alert_on m e alias [] = mapped m (alert_of e none ∷ [])
  alert_on m e alias (a ∷ r) =
      let (next, host_id) =
        resolve_host_id digest m e.source (a ∷ r) (or_string alias ("host-" <> e.entity_id)) in
      mapped next (
        seen_host e host_id (or_string (value_of e "hostname") (or_string alias host_id)) none
          (value_of e "primary_ip") "unknown"
        ∷ (build_alias_records host_id (a ∷ r) e ++ alert_of e (some host_id) ∷ []))

  unfoldable pub map_alert : Mapper → Envelope → Mapping
  unfolding extract_aliases resolve_host_id get
  map_alert m e = let (alias, aliases) = extract_aliases e in alert_on m e alias aliases

  unfoldable pub map_vulnerability : Mapper → Envelope → Mapping
  unfolding extract_aliases resolve_host_id get
  map_vulnerability m e =
      let (alias, aliases) = extract_aliases e in
      let (next, host_id) = resolve_host_id digest m e.source aliases ("host-" <> e.entity_id) in
      mapped next (
        named_host e host_id
          (elim alias [ none ↦ none | some a ↦ some (or_string (value_of e "hostname") a) ]) none
        ++ (build_alias_records host_id aliases e
            ++ vulnerability (record {
              vuln_id = e.entity_id;
              host_id = host_id;
              detected_at = e.observed_at;
              source = e.source;
              cve = value_of e "cve";
              severity = or_string (value_of e "severity") "info";
              package_name = value_of e "package_name";
              installed_version = value_of e "installed_version";
              fixed_version = value_of e "fixed_version";
              resolved_at = none;
              raw_ref = e.raw_ref;
              raw_payload = e.raw_payload;
            })
              ∷ []))

  -- `_parse_iso`
  abbrev pub parse_iso : Option Value → Option ℕ
  parse_iso (some (moment t)) = some t
  parse_iso (some (json (text s))) = if s == "" then none else fromisoformat s
  parse_iso _ = none

  abbrev pub value_or : Envelope → String → String → String
  value_or e k d = or_string (value_of e k) d

  unfoldable pub map_directory_account : Envelope → List Entity
  unfolding is_nonzero get
  map_directory_account e =
      directory_account (record {
        account_id = value_or e "account_id" e.entity_id;
        username = value_or e "username" "unknown";
        display_name = value_of e "display_name";
        email = value_of e "email";
        department = value_of e "department";
        status = value_or e "status" "active";
        is_privileged = truthy (get e.normalized "is_privileged");
        last_login_at = parse_iso (get e.normalized "last_login_at");
        password_last_set = parse_iso (get e.normalized "password_last_set");
        created_at = parse_iso (get e.normalized "created_at");
      })
      ∷ []

  unfoldable pub map_group_membership : Envelope → List Entity
  unfolding get
  map_group_membership e =
      group_membership (record {
        membership_id = value_or e "membership_id" e.entity_id;
        account_id = value_or e "account_id" "unknown";
        group_name = value_or e "group_name" "unknown";
        source = value_or e "source" "ldap";
        synced_at = some e.observed_at;
      })
      ∷ []

  unfoldable pub map_privilege_binding : Envelope → List Entity
  unfolding get
  map_privilege_binding e =
      privilege_binding (record {
        binding_id = value_or e "binding_id" e.entity_id;
        account_id = value_or e "account_id" "unknown";
        privilege_type = value_or e "privilege_type" "unknown";
        target = value_of e "target";
        granted_at = some e.observed_at;
        expires_at = none;
        granted_by = value_of e "granted_by";
      })
      ∷ []

  unfoldable pub map_account_observation : Envelope → List Entity
  unfolding get
  map_account_observation e =
      account_observation (record {
        observation_id = value_or e "observation_id" e.entity_id;
        account_id = value_or e "account_id" "unknown";
        observation_type = value_or e "observation_type" "unknown";
        source = value_or e "source" "ldap";
        observed_at = some e.observed_at;
        detail = value_of e "detail";
        severity = value_of e "severity";
      })
      ∷ []

  unfoldable pub map_control_check : Envelope → List Entity
  unfolding texts_of get
  map_control_check e =
      control_check_result (record {
        check_id = value_or e "check_id" e.entity_id;
        control_id = value_or e "control_id" "unknown";
        entity_type = value_or e "entity_type" "host";
        entity_id = value_or e "entity_id" "unknown";
        status = value_or e "status" "not_checked";
        checked_at = e.observed_at;
        evidence_refs = text_list (get e.normalized "evidence_refs");
        owner = value_of e "owner";
        note = value_of e "note";
        remediation_due_at = none;
        resolved_at = none;
      })
      ∷ []

  -- The identity and compliance types, which refer to no host.
  unfoldable pub map_account : Mapper → Envelope → Mapping
  map_account m e =
      if e.entity_type == "directory_account"
      then mapped m (map_directory_account e)
      else if e.entity_type == "group_membership"
      then mapped m (map_group_membership e)
      else if e.entity_type == "privilege_binding"
      then mapped m (map_privilege_binding e)
      else if e.entity_type == "account_observation"
      then mapped m (map_account_observation e)
      else if e.entity_type == "control_check"
      then mapped m (map_control_check e)
      else unsupported ("Unsupported envelope entity_type: " <> e.entity_type)

  unfoldable pub map_envelope : Mapper → Envelope → Mapping
  map_envelope m e =
      if e.entity_type == "host_observation"
      then map_host_observation m e
      else if e.entity_type == "query_result"
      then map_query_result m e
      else if e.entity_type == "alert"
      then map_alert m e
      else if e.entity_type == "vulnerability"
      then map_vulnerability m e
      else map_account m e

-- What an ingestion sees of a mapping: `ValueError` is its message.
abbrev pub output : Mapper → Mapping → Mapper × List Entity × Option String
output m (mapped next xs) = (next, xs, none)
output m (unsupported why) = (m, [], some why)
