-- ===== src/Ledger/Forward.antt =====
-- Stages do not go back: what any later transactions leave of a stage that has begun, or has ended.
pub mod Rounds
pub mod Splits
pub mod Steps
pub mod Later
pub mod Again
