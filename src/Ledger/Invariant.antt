-- ===== src/Ledger/Invariant.antt =====
-- The invariant of the ledger, and what it says of the rows that a transaction may replace.
mod Free
mod CalmSteps
pub use Free.*
pub use CalmSteps.*
