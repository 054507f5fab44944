-- ===== src/Tests/Stores.antt =====
-- The inventory, the pollers, the accounts and the ratings at concrete inputs.
use mori_soc.Prelude.{
  take, select, count_if, contains, ℕ, String, ◌≡◌, refl, true, false, Option, none, some, [], ◌∷◌,
}
use mori_soc.Prelude.Dict.{get, or_value}
use mori_soc.Prelude.Tally.{count_of}
use mori_soc.Inventory.{Repository, empty_repository, save_host, recalculate_risk_scores}
use mori_soc.Inventory.Entities.{Host, Alert, no_fields}
use mori_soc.Inventory.Hosts.{save_host_swap, extremes}
use mori_soc.Inventory.Scores.{deserved, scored, recalculate_risk_scores_lem}
use mori_soc.Accounts.{Account, AllowEntry, Row, reconcile}
use mori_soc.Accounts.Findings.{reconcile-tallies}

abbrev seen_host : String → ℕ → ℕ → Host
seen_host name score at = record {
  host_id = "h1";
  hostname = name;
  platform = some "ubuntu";
  primary_ip = none;
  status = "online";
  risk_score = score;
  first_seen_at = some at;
  last_seen_at = some at;
}

abbrev an_alert : Alert
an_alert = record {
  alert_id = "a1";
  source = "wazuh";
  observed_at = 7;
  message = "root login";
  host_id = some "h1";
  source_event_id = none;
  severity = "high";
  original_severity = none;
  rule_name = none;
  rule_id = none;
  resolved_at = none;
  raw_ref = none;
  raw_payload = no_fields;
}

save_host_swap_example :
    extremes (get (save_host (save_host [] (seen_host "web" 5 10)) (seen_host "" 3 8)) "h1")
    ≡ extremes (get (save_host (save_host [] (seen_host "" 3 8)) (seen_host "web" 5 10)) "h1")
save_host_swap_example = save_host_swap [] (seen_host "web" 5 10) (seen_host "" 3 8) "h1"

abbrev small : Repository
small = record empty_repository {
  hosts = ("h1", seen_host "web" 0 10) ∷ [];
  alerts = ("a1", an_alert) ∷ [];
}

recalculated :
    recalculate_risk_scores small ≡ record small { hosts = ("h1", seen_host "web" 10 10) ∷ [] }
unfolding recalculate_risk_scores
recalculated = refl

recalculate_risk_scores_lem_example :
    get (recalculate_risk_scores small).hosts "h1"
    ≡ scored (some (deserved small "h1")) (get small.hosts "h1")
unfolding get
recalculate_risk_scores_lem_example =
    recalculate_risk_scores_lem small "h1" (record { nodup = (refl, tt); keyed = (refl, tt) })

abbrev deploy : Account
deploy = record {
  username = "Deploy";
  host_type = "server";
  uid = "1001";
  gid = "";
  shell = "";
  home = "";
  groups = "sudo" ∷ [];
  is_privileged = true;
  is_sudo = true;
  disabled = false;
  last_login = "";
  pwd_last_change = "";
  source = "osquery";
}

abbrev allowed : AllowEntry
allowed = record { scope = "host"; host_key = "h1"; username = "deploy"; kind = "sudo" }

abbrev never : String → Option ℕ
never s = none

reconcile-tallies_example :
    let r =
      reconcile never 0 90 (("h2", deploy ∷ []) ∷ ("h1", deploy ∷ []) ∷ []) [] (allowed ∷ []) in
    (count_of r.tallies.counts "orphan_priv"
      ≡ count_if (λ (row : Row). contains row.findings "orphan_priv") r.accounts)
    × (or_value (get r.tallies.findings "orphan_priv") []
        ≡ take 200 (select (λ (row : Row). contains row.findings "orphan_priv") r.accounts))
reconcile-tallies_example =
    reconcile-tallies never 0 90 (("h2", deploy ∷ []) ∷ ("h1", deploy ∷ []) ∷ []) [] (allowed ∷ [])
      "orphan_priv"
