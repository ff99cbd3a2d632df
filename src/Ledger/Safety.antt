-- ===== src/Ledger/Safety.antt =====
-- Every transaction of the ledger keeps what is held safe.
pub mod FirstPass
pub mod Rounds
pub mod Schedule
pub mod Operations
pub mod Releases
pub mod Submissions
pub mod Configuration
pub mod Reach
pub mod Quarantine
pub mod Cancels
