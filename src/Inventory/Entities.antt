-- ===== src/Inventory/Entities.antt =====
-- The entities of src/mori_soc/models/entities.py. A time is its number of microseconds, an optional
-- field is an option, and a number in a payload is its literal.
use mori_soc.Prelude.{ℕ, String, Bool, Option, List}

mutual
  pub data Json : Type 0 where
    null : Json
    boolean : Bool → Json
    number : String → Json
    text : String → Json
    array : Items → Json
    object : Fields → Json

  pub data Items : Type 0 where
    no_items : Items
    item : Json → Items → Items

  pub data Fields : Type 0 where
    no_fields : Fields
    with_field : String → Json → Fields → Fields

pub record Host : Type 0 where
  pub host_id : String
  pub hostname : String
  pub platform : Option String
  pub primary_ip : Option String
  pub status : String
  pub risk_score : ℕ
  pub first_seen_at : Option ℕ
  pub last_seen_at : Option ℕ

pub record HostAlias : Type 0 where
  pub alias_id : String
  pub host_id : String
  pub source : String
  pub alias_type : String
  pub alias_value : String
  pub confidence : String
  pub is_primary : Bool
  pub first_seen_at : Option ℕ
  pub last_seen_at : Option ℕ

pub record Alert : Type 0 where
  pub alert_id : String
  pub source : String
  pub observed_at : ℕ
  pub message : String
  pub host_id : Option String
  pub source_event_id : Option String
  pub severity : String
  pub original_severity : Option String
  pub rule_name : Option String
  pub rule_id : Option String
  pub resolved_at : Option ℕ
  pub raw_ref : Option String
  pub raw_payload : Fields

pub record Vulnerability : Type 0 where
  pub vuln_id : String
  pub host_id : String
  pub detected_at : ℕ
  pub source : String
  pub cve : Option String
  pub severity : String
  pub package_name : Option String
  pub installed_version : Option String
  pub fixed_version : Option String
  pub resolved_at : Option ℕ
  pub raw_ref : Option String
  pub raw_payload : Fields

pub record QueryResult : Type 0 where
  pub query_result_id : String
  pub host_id : String
  pub observed_at : ℕ
  pub result_json : Fields
  pub source : String
  pub query_name : Option String
  pub query_text : Option String
  pub raw_ref : Option String

pub record HostObservation : Type 0 where
  pub observation_id : String
  pub source : String
  pub host_id : String
  pub observation_type : String
  pub metric_name : String
  pub observed_at : ℕ
  pub metric_value : Option String
  pub unit : Option String
  pub severity : Option String
  pub raw_ref : Option String
  pub raw_payload : Fields

pub record SourceSync : Type 0 where
  pub source : String
  pub status : String
  pub last_sync_at : ℕ
  pub last_success_at : Option ℕ
  pub last_error_at : Option ℕ
  pub message : Option String
  pub records_collected : ℕ
  pub envelopes_normalized : ℕ
  pub entities_saved : ℕ

pub record ControlCheckResult : Type 0 where
  pub check_id : String
  pub control_id : String
  pub entity_type : String
  pub entity_id : String
  pub status : String
  pub checked_at : ℕ
  pub evidence_refs : List String
  pub owner : Option String
  pub note : Option String
  pub remediation_due_at : Option ℕ
  pub resolved_at : Option ℕ

pub record DirectoryAccount : Type 0 where
  pub account_id : String
  pub username : String
  pub display_name : Option String
  pub email : Option String
  pub department : Option String
  pub status : String
  pub is_privileged : Bool
  pub last_login_at : Option ℕ
  pub password_last_set : Option ℕ
  pub created_at : Option ℕ

pub record PrivilegeBinding : Type 0 where
  pub binding_id : String
  pub account_id : String
  pub privilege_type : String
  pub target : Option String
  pub granted_at : Option ℕ
  pub expires_at : Option ℕ
  pub granted_by : Option String

pub record GroupMembership : Type 0 where
  pub membership_id : String
  pub account_id : String
  pub group_name : String
  pub source : String
  pub synced_at : Option ℕ

pub record AccountObservation : Type 0 where
  pub observation_id : String
  pub account_id : String
  pub observation_type : String
  pub source : String
  pub observed_at : Option ℕ
  pub detail : Option String
  pub severity : Option String
