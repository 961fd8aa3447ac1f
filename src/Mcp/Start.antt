-- ===== src/Mcp/Start.antt =====
-- packages/mcp-server/src/bind.ts, pem.ts and config.ts: how the server finds its identity and its
-- key when it starts. The environment, the files, the network and the keys are parameters.
pub mod Env
pub mod Bind
pub mod Config
pub mod Binding
pub mod Sources
