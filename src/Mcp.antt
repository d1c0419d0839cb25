-- ===== src/Mcp.antt =====
-- The tool server for agents (src/mcp).
pub mod Policy
