-- ===== src/Client.antt =====
-- packages/client/src: the client library. The network, `sleep`, the clock, the signing of tokens
-- and `JSON.parse` are parameters; the imported key is the client's own state.
pub mod Errors
pub mod Transport
pub mod Approval
pub mod Calls
pub mod Environment
