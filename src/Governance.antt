-- ===== src/Governance.antt =====
-- src/mori_soc/services/control_governance.py: versions and their definitions, cycle controls, audit
-- snapshots, migrations, the event ledger, and what is built around the versions.
pub mod Cycle
pub mod Audit
pub mod Definitions
pub mod Lifecycle
pub mod Ledger
pub mod Migration
pub mod Catalog
