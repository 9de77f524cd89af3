-- ===== src/Config.antt =====
-- pkg/config: the Connector's configuration.
pub mod FrpGen
pub mod Identities
pub mod Routes
