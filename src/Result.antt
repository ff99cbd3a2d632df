-- ===== src/Result.antt =====
-- What a call returns or raises, and what a generator yields.
mod Generators
mod Errors
mod Yielding
mod Spared
unfoldable pub use Generators.*
unfoldable pub use Errors.*
pub use Yielding.*
pub use Spared.*
