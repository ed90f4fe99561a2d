-- ===== src/Server.antt =====
-- pkg/mcp_server: the sessions of the projects.
pub mod Session
