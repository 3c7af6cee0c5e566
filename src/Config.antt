-- ===== src/Config.antt =====
-- src/config: the rules of the configuration.
pub mod Credential
pub mod Cadence
