-- ===== src/Agentstate.antt =====
-- pkg/agentstate: the durable state of a Connector agent.
pub mod SessionOperation
pub mod RefreshMarker
