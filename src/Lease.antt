-- ===== src/Lease.antt =====
-- src/orchestrator_engine/worker_lease.py: process identities, the states of processes and process
-- groups, and the stopping of an orphaned worker.
pub mod Identity
pub mod Stat
pub mod Process
pub mod Stop
pub mod Groups
pub mod Records
