-- ===== src/Csv.antt =====
-- Tables as CSV texts: src/mori_soc/services/csv_export.py and src/mori_soc/services/csv_import.py.
pub mod Format
pub mod Export
pub mod Import
pub mod RoundTrip
pub mod Cells
pub mod Required
