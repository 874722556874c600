-- ===== src/Store.antt =====
-- lib/booking/memory-store.ts: the booking store in memory and its locked transactions.
-- The methods of the store stand here, those of a transaction in Store/Tx.antt.
mod Types
mod Ledger
mod Tx
pub mod Fences
pub mod Claims
pub mod Occupancy
unfoldable pub use Types.*
unfoldable pub use Ledger.*
unfoldable pub use Tx.*
