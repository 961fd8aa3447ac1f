-- ===== src/Tests.antt =====
-- Concrete inputs for the theorems.
mod Fingerprint
mod Kernel
mod Policy
mod Pipeline
mod Protection
mod Sources
mod Approvals
mod Remote
mod Server
mod Start
mod Wiring
mod Cli
