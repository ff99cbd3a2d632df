-- ===== src/Resources.antt =====
-- src/orchestrator_engine/resource_queue.py: registered resources, selectors over them, and the
-- search for an assignment.
pub mod Registry
pub mod Claims
pub mod Selectors
pub mod Alternatives
pub mod Demands
pub mod Assignments
pub mod Normalize
