-- ===== src/Lib.antt =====
-- Verification of MORI SOC, a server that gathers security data and keeps the evidence for audits.
--
-- The program. Pollers collect records from security tools, and an ingestion maps them to entities in a
-- repository, where the risk of each host is scored. On top of that stand the services for audits: gaps
-- that people confirm and close, evidence that is reviewed and approved, and the governance of controls
-- over framework versions and yearly cycles. Requests pass a rate limit and a session check first.
--
-- Which file models what, with paths below src/mori_soc:
--   * Governance (services/control_governance.py). Cycle: build_cycle_control, apply_cycle_control_update,
--     cycle_control_as_of and initialize_cycle_from_previous. Audit: build_cycle_audit_snapshot.
--     Definitions: diff_control_definitions. Lifecycle: build_framework_version, content_hash and
--     apply_version_lifecycle. Migration: plan_cycle_migration. Ledger: build_governance_event and
--     verify_governance_chain, with the append of api/routes/control_governance.py. Catalog:
--     plan_catalog_import, build_scope_snapshot, build_crosswalk and apply_overlay.
--   * Gap (services/gap_workflow.py and the handler gap_transition of api/routes/compliance.py). Deadlines:
--     evaluate_gap_deadlines.
--   * Approval (services/evidence_approval.py, the handler evidence_transition of
--     api/routes/compliance.py, and save_evidence_approval of repositories/state_postgres.py).
--   * Risk (services/risk_assessment.py).
--   * Inventory (models/entities.py, repositories/memory.py and services/risk_score.py).
--   * Normalization (services/normalization.py, the envelope of collectors/base.py and short_id of
--     services/hashing.py). Values: reading of values. Hosts: the state of EnvelopeEntityMapper and
--     _resolve_host_id. Mappings: map_envelope with the nine mappings.
--   * Poller (services/ingestion.py and run_cycle of pollers/base.py), on the repository of Inventory and
--     a mapper whose state goes from envelope to envelope.
--   * RateLimit (api/ratelimit.py).
--   * Access (api/routes/auth.py and the middleware of api/auth.py), on the window of RateLimit.
--   * SessionStore (api/session_store.py and ui_sessions of repositories/state_postgres.py), on the sessions
--     of Access.
--   * Csv. Format: the writer and the reader of the csv module, as far as the source uses them. Export:
--     services/csv_export.py. Import: services/csv_import.py.
--   * ChangeReport (services/change_report.py), on the gaps of Gap and the approvals of Approval.
--   * Freshness (services/evidence_freshness.py).
--   * Sampling (services/sampling.py), with the rounding of ScopeCoverage.
--   * Soa (services/soa.py), whose table is written by Csv.
--   * ScopeCoverage (services/scope_coverage.py).
--   * QueryCache (api/query_cache.py), as steps of threads that interleave.
--   * Accounts (services/account_recon.py).
--   * ScanDiff (services/scan_diff.py).
--   * Prelude: shared names, Python's str and dict, and counting. Tests: runs and concrete inputs.
-- The theorems on a part stand in its child modules.
--
-- State and effects. A mutable object is a record that an operation takes and returns; a dict is an
-- association list in the order of its insertions, with unique keys where a theorem needs them. A
-- middleware or a handler takes the time as an argument, and its reply is a value, refusals included.
-- A key that a Python record may lack reads as the empty text, false or the empty list, as the source
-- reads it. Texts are sequences of characters and compare by code points; letter case, digits and white
-- space in lower, isdigit and slug are those of ASCII, and white space in strip is Python's.
--
-- Parameters, for what is not in the repository or is text of the standard library: the digests of
-- content, events and identities, the check of credentials and the roles, the parsing of times, the
-- test of an origin, the collectors, the limit of the csv module on the length of a field, the
-- reading of a float, and the factory of query services, as a function of the time.
--
-- Bounds and fuel. show_nat runs on fuel n + 1, which is enough, since each round divides by ten; slug
-- keeps 60 characters, as the source does. Every other loop is structural: the retries of a poller count
-- down from the maximum. Times are whole microseconds, where the source has floating seconds; the
-- dates of deadlines are whole seconds.
--
-- Not modelled: logging, waiting, SQL apart from the approvals and the sessions, HTML and PDF, the HTTP
-- clients of the collectors, LDAP and OIDC, and the services that only project data for display.
pub mod Prelude
pub mod Governance
pub mod Gap
pub mod Approval
pub mod ChangeReport
pub mod Freshness
pub mod QueryCache
pub mod ScopeCoverage
pub mod Sampling
pub mod Soa
pub mod Risk
pub mod Inventory
pub mod Normalization
pub mod Poller
pub mod RateLimit
pub mod Access
pub mod SessionStore
pub mod Csv
pub mod Accounts
pub mod ScanDiff
pub mod Tests
