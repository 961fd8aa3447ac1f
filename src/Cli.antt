-- ===== src/Cli.antt =====
-- packages/cli/src: the command line that registers an agent and sets up its hosts.
pub mod Ide
pub mod Frameworks
pub mod Wait
