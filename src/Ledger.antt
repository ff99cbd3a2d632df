-- ===== src/Ledger.antt =====
-- src/orchestrator_engine/resource_queue.py: the class `Ledger`, the authority over resources.
pub mod State
pub mod Save
pub mod Outcomes
pub mod Operations
pub mod Schedule
pub mod Plans
pub mod Requests
pub mod Subscriptions
pub mod Snapshot
pub mod Intake
pub mod Steps
pub mod Once
pub mod Held
pub mod Invariant
pub mod Safety
pub mod Forward
