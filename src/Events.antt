-- ===== src/Events.antt =====
-- src/orchestrator_engine/core.py: terminal events, the audit trail that is written once, with the
-- signals beside them.
pub mod Ids
pub mod Log
pub mod Verify
