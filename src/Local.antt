-- ===== src/Local.antt =====
-- The trusted, key-holding half: the class `RandevuLocal` of packages/local/src/server.ts. It talks to a
-- relay that it does not trust; the relay is an interface, and so may answer anything.
pub mod Data
pub mod Action
pub mod Api
pub mod Keys
pub mod Folding
pub mod Sending
pub mod Export
pub mod Rooming
pub mod Waiting
pub mod Issuing
pub mod Tools
pub mod Keystore
