-- ===== src/Metrics.antt =====
-- src/orchestrator_engine/resource_metrics.py, and metrics/progress.py beside it: who owned a resource
-- for how long, what stages waited for, and which items count as accepted.
pub mod Union
pub mod Ownership
pub mod Report
pub mod Acceptance
