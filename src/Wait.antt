-- ===== src/Wait.antt =====
-- src/orchestrator_engine/operation_wait.py: the wait over workers, local checks, monitors of
-- GitHub Actions and of pull requests.
pub mod Targets
pub mod Snapshot
pub mod Summary
pub mod Loop
