-- ===== src/Ipp2p.antt =====
-- The ipp2p match (extensions/xt_ipp2p.c): searches for the payloads of peer-to-peer programs.
pub mod Payload
pub mod Commands
pub mod Udp
pub mod Tcp
pub mod Scan
pub mod Match
mod Tests
