-- ===== src/Psd.antt =====
-- The psd match (extensions/xt_psd.c): detection of port scans.
pub mod Scan
pub mod Table
pub mod Match
mod Tests
