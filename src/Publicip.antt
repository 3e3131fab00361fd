-- ===== src/Publicip.antt =====
-- internal/publicip/api/resilient.go: the information on the public IP address, from many sources.
-- Child modules: Distance, the distance between two strings; Popular, the choice of a result; Fetch,
-- the queries and the bans.
pub mod Distance
pub mod Popular
pub mod Fetch
mod Tests
