-- ===== src/Share.antt =====
-- pkg/share: the sessions of a Connector agent and the routes that they carry.
pub mod Timing
pub mod Route
pub mod Admission
pub mod GroupSession
pub mod GroupFactory
pub mod Group
pub mod SessionOperation
