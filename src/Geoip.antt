-- ===== src/Geoip.antt =====
-- extensions/xt_geoip.c and xt_geoip.h: the match of an address against the ranges of countries.
pub mod Search
pub mod Match
pub mod Load
mod Tests
