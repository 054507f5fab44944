-- ===== src/Tests/Polling.antt =====
-- Envelopes, the hosts they are about, and the cycles of a source, at concrete inputs.
use mori_soc.Prelude.{
  eqb, if◌then◌else◌, contains, ℕ, String, ◌≡◌, refl, true, Option, none, some, List, [], ◌∷◌,
  arith,
}
use mori_soc.Prelude.Dict.{get, values, index_by}
use mori_soc.Inventory.{Entity, empty_repository, save_all}
use mori_soc.Inventory.Entities.{SourceSync, text, array, no_items, item, no_fields}
use mori_soc.Normalization.Values.{json, Envelope, extract_aliases}
use mori_soc.Normalization.Hosts.{Mapper, new_mapper, resolve_host_id}
use mori_soc.Normalization.Mappings.{map_envelope, output}
use mori_soc.Normalization.Resolve.{resolved, host_of, known, Named, resolve_all, resolve_all-known}
use mori_soc.Normalization.Records.{
  About, is_mapped, envelope_types, host_of_envelope, map_envelope-All, is_mapped-map_envelope,
}
use mori_soc.Poller.{run_cycle}
use mori_soc.Poller.Cycle.{Recorded, succeeds, tried, run_cycle_lem, run_cycle_succeeds}

abbrev digest : String → String
digest s = "d41d8"

abbrev no_time : String → Option ℕ
no_time s = none

abbrev fresh : Mapper
fresh = record {
  alias_map = [];
  bucket_alias_map = ("pc", []) ∷ ("server", []) ∷ ("neutral", []) ∷ [];
}

abbrev seen : String → String → String → Envelope
seen source kind name = record {
  entity_type = kind;
  entity_id = "e1";
  observed_at = 10;
  source = source;
  raw_ref = none;
  normalized =
      ("host_id", json (text name))
      ∷ ("source_aliases", json (array (item (text "web.local") (item (text name) no_items))))
      ∷ [];
  raw_payload = no_fields;
}

fresh_is_new : new_mapper [] [] ≡ fresh
unfolding new_mapper
fresh_is_new = refl

aliases_once :
    extract_aliases (seen "zabbix" "alert" "web 01") ≡ (some "web 01", "web 01" ∷ "web.local" ∷ [])
unfolding extract_aliases
aliases_once = refl

first_host : host_of digest fresh "zabbix" ("web 01" ∷ []) "host-e1" ≡ "server-web-01"
unfolding resolve_host_id
first_host = refl

-- A neutral source joins the host that one of the two other buckets knows.
bridged :
    host_of digest (resolved digest fresh "zabbix" ("web" ∷ []) "") "wazuh" ("web" ∷ "x" ∷ []) ""
    ≡ "server-web"
unfolding resolve_host_id
bridged = refl

abbrev knowing : Mapper
knowing = record {
  alias_map = [];
  bucket_alias_map = ("pc", []) ∷ ("server", ("web", "server-web") ∷ []) ∷ ("neutral", []) ∷ [];
}

abbrev named : String → List String → Named
named source aliases = record { source = source; aliases = aliases; fallback = "" }

resolve_all-known_example :
    known
      (resolve_all digest knowing
        (named "zabbix" ("web" ∷ "w2" ∷ []) ∷ named "fleet" ("x" ∷ "web" ∷ []) ∷ []))
      "server"
      "web"
    ≡ some "server-web"
resolve_all-known_example =
    resolve_all-known digest
      (named "zabbix" ("web" ∷ "w2" ∷ []) ∷ named "fleet" ("x" ∷ "web" ∷ []) ∷ []) knowing "server"
      "web" "server-web" (unfold get in refl) ((λ h. refl), ((λ h. unfold get in cc), tt))

map_envelope-All_example :
    About
      (host_of_envelope digest no_time fresh (seen "wazuh" "alert" "web"))
      (map_envelope digest no_time fresh (seen "wazuh" "alert" "web"))
map_envelope-All_example = map_envelope-All digest no_time fresh (seen "wazuh" "alert" "web")

is_mapped-map_envelope_example :
    is_mapped (map_envelope digest no_time fresh (seen "wazuh" "report" "web"))
    ≡ contains envelope_types "report"
is_mapped-map_envelope_example =
    is_mapped-map_envelope digest no_time fresh (seen "wazuh" "report" "web")

-- A source whose first attempt fails after one envelope.
abbrev normalize : String → List Envelope × Option String
normalize raw = (seen "zabbix" "host_observation" raw ∷ [], none)

abbrev mapping : Mapper → Envelope → Mapper × List Entity × Option String
mapping m e = output m (map_envelope digest no_time m e)

abbrev flaky : ℕ → List String × Option String
flaky n = if eqb n 1 then ("web" ∷ [], some "timeout") else ("web" ∷ "db" ∷ [], none)

abbrev steady : ℕ → List String × Option String
steady n = ([], if eqb n 2 then none else some "timeout")

abbrev untouched : String → String
untouched s = s

run_cycle_lem_example :
    Recorded String Envelope Mapper normalize mapping "zabbix" flaky 20 untouched
      (get
        (index_by (λ (s : SourceSync). s.source) (values empty_repository.source_syncs))
        "zabbix")
      (succeeds String Envelope Mapper normalize mapping "zabbix" flaky 20 untouched 2 1 fresh)
      (save_all empty_repository
        (tried String Envelope Mapper normalize mapping "zabbix" flaky 20 untouched 2 1 fresh))
      (run_cycle String Envelope Mapper normalize mapping "zabbix" flaky 20 untouched true 2
        empty_repository fresh)
run_cycle_lem_example =
    run_cycle_lem String Envelope Mapper normalize mapping "zabbix" flaky 20 untouched 2
      empty_repository fresh

run_cycle_succeeds_example :
    (run_cycle String Envelope Mapper normalize mapping "zabbix" steady 20 untouched true 2
      empty_repository fresh).2.status
    ≡ "success"
run_cycle_succeeds_example =
    run_cycle_succeeds String Envelope Mapper normalize mapping "zabbix" steady 20 untouched 2
      empty_repository fresh 2 (omega arith) (omega arith) (λ m. refl)
