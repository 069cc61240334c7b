-- ===== src/Relay.antt =====
-- The blind relay (apps/relay/src).
pub mod Store
pub mod Keys
pub mod Session
pub mod Dispatch
pub mod Shell
