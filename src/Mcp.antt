-- ===== src/Mcp.antt =====
-- taxcalc-mcp-server/src/taxcalc_mcp_server: the MCP server between the agent and the services.
pub mod Json
pub mod Errors
pub mod Money
pub mod Tenancy
pub mod Observability
pub mod Http
pub mod Orders
pub mod Llm
pub mod Rag
pub mod Dispatch
pub mod Middleware
pub mod Reports
pub mod Samples
