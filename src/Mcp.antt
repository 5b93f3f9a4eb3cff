-- ===== src/Mcp.antt =====
-- internal/mcp: the replies of the vault server.
pub mod Envelope
