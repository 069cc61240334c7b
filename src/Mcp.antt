-- ===== src/Mcp.antt =====
-- The hosted rooms (apps/mcp/src).
pub mod Room
pub mod Pages
pub mod Texts
pub mod Invitations
pub mod Tools
