-- ===== src/Data.antt =====
-- The data that the components exchange: transactions, blocks, log entries, messages, effects.
mod Transactions
mod Blocks
mod Entries
mod Messages
pub use Transactions.*
pub use Blocks.*
unfoldable pub use Entries.*
pub use Messages.*
