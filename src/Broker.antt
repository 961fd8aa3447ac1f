-- ===== src/Broker.antt =====
-- packages/mcp-broker/src: the enforcement layer that a server author embeds.
pub mod Evaluator
pub mod Types
pub mod Identity
pub mod Pass
pub mod Pipeline
pub mod Yaml
pub mod Authzen
pub mod FilePolicy
pub mod Fingerprint
pub mod Hosted
pub mod Protection
pub mod Secrets
pub mod Wiring
