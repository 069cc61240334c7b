-- ===== src/Http.antt =====
-- What travels between a member and a relay: the typed client and the relay on plain Node.
pub mod Client
pub mod Node
pub mod Served
