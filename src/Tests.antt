-- ===== src/Tests.antt =====
-- Runs at fixed inputs: each theorem with hypotheses is applied where they hold.
mod SessionOperation
mod Recovery
mod RefreshMarker
mod Share
mod Config
mod GroupSession
