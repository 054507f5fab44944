-- ===== src/Inventory.antt =====
-- The repository in memory: src/mori_soc/repositories/memory.py.
use mori_soc.Prelude.{
  leb, if◌then◌else◌, or_text, ℕ, ◌+◌, min, max, String, not, Option, none, some, List, [], ◌∷◌,
  map, ◌==◌,
}
use mori_soc.Prelude.Dict.{append_to, list_of, Dict, get, or_value, put, values}
use mori_soc.Prelude.Tally.{total}
use mori_soc.Inventory.Entities.{
  Host, HostAlias, Alert, Vulnerability, QueryResult, HostObservation, SourceSync,
  ControlCheckResult, DirectoryAccount, PrivilegeBinding, GroupMembership, AccountObservation,
}
pub mod Entities
pub mod Hosts
pub mod Scores

pub record Repository : Type 0 where
  pub hosts : Dict Host
  pub host_aliases : Dict HostAlias
  pub alerts : Dict Alert
  pub vulnerabilities : Dict Vulnerability
  pub query_results : Dict QueryResult
  pub observations : Dict HostObservation
  pub source_syncs : Dict SourceSync
  pub control_checks : Dict ControlCheckResult
  pub directory_accounts : Dict DirectoryAccount
  pub privilege_bindings : Dict PrivilegeBinding
  pub group_memberships : Dict GroupMembership
  pub account_observations : Dict AccountObservation

abbrev pub empty_repository : Repository
empty_repository = record {
  hosts = [];
  host_aliases = [];
  alerts = [];
  vulnerabilities = [];
  query_results = [];
  observations = [];
  source_syncs = [];
  control_checks = [];
  directory_accounts = [];
  privilege_bindings = [];
  group_memberships = [];
  account_observations = [];
}

-- What `save` accepts; it refuses any other object.
pub data Entity : Type 0 where
  host : Host → Entity
  host_alias : HostAlias → Entity
  alert : Alert → Entity
  vulnerability : Vulnerability → Entity
  query_result : QueryResult → Entity
  host_observation : HostObservation → Entity
  source_sync : SourceSync → Entity
  control_check_result : ControlCheckResult → Entity
  directory_account : DirectoryAccount → Entity
  privilege_binding : PrivilegeBinding → Entity
  group_membership : GroupMembership → Entity
  account_observation : AccountObservation → Entity

-- `a or b` on an optional text
abbrev pub or_option : Option String → Option String → Option String
or_option none b = b
or_option (some a) b = if a == "" then b else some a

abbrev pub min_dt : Option ℕ → Option ℕ → Option ℕ
min_dt none right = right
min_dt (some left) none = some left
min_dt (some left) (some right) = some (if leb left right then left else right)

abbrev pub max_dt : Option ℕ → Option ℕ → Option ℕ
max_dt none right = right
max_dt (some left) none = some left
max_dt (some left) (some right) = some (if leb right left then left else right)

-- `replace(existing, …)`
abbrev pub merge_host : Host → Host → Host
merge_host existing incoming = record existing {
  hostname = or_text incoming.hostname existing.hostname;
  platform = or_option incoming.platform existing.platform;
  primary_ip = or_option incoming.primary_ip existing.primary_ip;
  status = if not (incoming.status == "unknown") then incoming.status else existing.status;
  risk_score = max existing.risk_score incoming.risk_score;
  first_seen_at = min_dt existing.first_seen_at incoming.first_seen_at;
  last_seen_at = max_dt existing.last_seen_at incoming.last_seen_at;
}

-- What is stored for a host, given what was stored before.
abbrev pub merged : Option Host → Host → Host
merged none incoming = incoming
merged (some existing) incoming = merge_host existing incoming

unfoldable pub save_host : Dict Host → Host → Dict Host
unfolding get put
save_host hosts incoming = put hosts incoming.host_id (merged (get hosts incoming.host_id) incoming)

unfoldable pub save : Repository → Entity → Repository
unfolding save_host put
save r (host e) = record r { hosts = save_host r.hosts e }
save r (host_alias e) = record r { host_aliases = put r.host_aliases e.alias_id e }
save r (alert e) = record r { alerts = put r.alerts e.alert_id e }
save r (vulnerability e) = record r { vulnerabilities = put r.vulnerabilities e.vuln_id e }
save r (query_result e) = record r { query_results = put r.query_results e.query_result_id e }
save r (host_observation e) = record r { observations = put r.observations e.observation_id e }
save r (source_sync e) = record r { source_syncs = put r.source_syncs e.source e }
save r (control_check_result e) = record r { control_checks = put r.control_checks e.check_id e }
save r (directory_account e) = record r {
  directory_accounts = put r.directory_accounts e.account_id e;
}
save r (privilege_binding e) = record r {
  privilege_bindings = put r.privilege_bindings e.binding_id e;
}
save r (group_membership e) = record r {
  group_memberships = put r.group_memberships e.membership_id e;
}
save r (account_observation e) = record r {
  account_observations = put r.account_observations e.observation_id e;
}

-- The entities of a run, in the order in which they are saved.
abbrev pub save_all : Repository → List Entity → Repository
save_all r [] = r
save_all r (e ∷ es) = save_all (save r e) es

-- A known host takes the score; an unknown one is left out.
abbrev pub set_score : Dict Host → String → ℕ → Option Host → Dict Host
set_score hosts host_id score none = hosts
set_score hosts host_id score (some h) = put hosts host_id (record h { risk_score = score })

unfoldable pub apply_risk_scores : Dict Host → Dict ℕ → Dict Host
unfolding get put
apply_risk_scores hosts [] = hosts
apply_risk_scores hosts ((host_id, score) ∷ scores) =
    apply_risk_scores (set_score hosts host_id score (get hosts host_id)) scores

-- The weights of the severities, src/mori_soc/services/risk_score.py.
abbrev pub alert_weights : Dict ℕ
alert_weights = ("critical", 20) ∷ ("high", 10) ∷ ("medium", 5) ∷ ("low", 2) ∷ ("info", 0) ∷ []

abbrev pub vuln_weights : Dict ℕ
vuln_weights = ("critical", 15) ∷ ("high", 8) ∷ ("medium", 3) ∷ ("low", 1) ∷ ("info", 0) ∷ []

abbrev pub alert_weight : Alert → ℕ
alert_weight a = or_value (get alert_weights a.severity) 0

abbrev pub vuln_weight : Vulnerability → ℕ
vuln_weight v = or_value (get vuln_weights v.severity) 0

unfoldable pub calculate : List Alert → List Vulnerability → ℕ
unfolding get
calculate alerts vulnerabilities =
    min (total (map alert_weight alerts) + total (map vuln_weight vulnerabilities)) 100

-- `if alert.host_id`
abbrev pub host_key : Alert → String
host_key a = or_value a.host_id ""

unfoldable pub group_alerts : Dict (List Alert) → List Alert → Dict (List Alert)
unfolding append_to
group_alerts d [] = d
group_alerts d (a ∷ r) = group_alerts (if host_key a == "" then d else append_to d (host_key a) a) r

unfoldable pub group_vulns :
    Dict (List Vulnerability) → List Vulnerability → Dict (List Vulnerability)
unfolding append_to
group_vulns d [] = d
group_vulns d (v ∷ r) = group_vulns (append_to d v.host_id v) r

abbrev pub rescored : Dict (List Alert) → Dict (List Vulnerability) → Host → Host
rescored alerts vulns h = record h {
  risk_score = calculate (list_of alerts h.host_id) (list_of vulns h.host_id);
}

unfoldable pub recalculate_hosts : List Host → List Alert → List Vulnerability → List Host
unfolding group_alerts group_vulns calculate
recalculate_hosts hosts alerts vulnerabilities =
    map (rescored (group_alerts [] alerts) (group_vulns [] vulnerabilities)) hosts

-- `{h.host_id: h.risk_score for h in updated}`
unfoldable pub scores_of : Dict ℕ → List Host → Dict ℕ
unfolding put
scores_of d [] = d
scores_of d (h ∷ r) = scores_of (put d h.host_id h.risk_score) r

unfoldable pub recalculate_risk_scores : Repository → Repository
unfolding recalculate_hosts scores_of apply_risk_scores
recalculate_risk_scores r =
    let updated = recalculate_hosts (values r.hosts) (values r.alerts) (values r.vulnerabilities) in
    record r { hosts = apply_risk_scores r.hosts (scores_of [] updated) }
