-- ===== src/Mcp.antt =====
-- packages/mcp-server/src: the MCP server. The network, the clock, `sleep`, the signing of tokens,
-- `JSON.parse`, `JSON.stringify` and the sending of notifications are parameters.
pub mod Net
pub mod Auth
pub mod Handlers
pub mod Waiting
pub mod Keeps
pub mod UsePlatform
pub mod Access
pub mod Dispatch
pub mod Start
