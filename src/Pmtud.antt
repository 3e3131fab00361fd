-- ===== src/Pmtud.antt =====
-- internal/pmtud: the discovery of the path MTU.
pub mod Mtus
pub mod Tcp
pub mod Icmp
mod Tests
