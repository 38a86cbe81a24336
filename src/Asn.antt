-- ===== src/Asn.antt =====
-- The asn match (extensions/xt_asn.c and xt_asn.h): as the geoip match, by numbers of autonomous
-- systems instead of countries.
pub mod Search
pub mod Match
pub mod Load
pub mod Same
mod Tests
