-- ===== src/Core.antt =====
-- The isomorphic protocol core (packages/core/src).
pub mod Invite
pub mod Sas
pub mod Crypto
pub mod Message
pub mod SealedBox
pub mod GroupKey
pub mod Kinds
pub mod Waiters
pub mod Credential
pub mod Transcript
