-- ===== src/Normalization.antt =====
-- The mapper of envelopes to entities, which decides the host that a record is about:
-- src/mori_soc/services/normalization.py.
pub mod Values
pub mod Hosts
pub mod Mappings
pub mod Resolve
pub mod Records
