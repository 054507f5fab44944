-- ===== src/Tests.antt =====
-- Runs of the modelled code, and the theorems at concrete inputs.
mod Governed
mod Ledgers
mod Workflows
mod Stores
mod Entrance
mod Catalogs
mod Scans
mod Polling
mod Restarts
mod Tables
mod Reports
mod Caches
mod Scopes
mod Samples
mod Declared
mod Dues
