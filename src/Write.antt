-- ===== src/Write.antt =====
-- src/write: controlled writes. Intents and their states, the execution gate, the ledgers.
pub mod Scopes
pub mod Types
pub mod Gate
pub mod Intents
pub mod Ledger
pub mod Mapping
pub mod CreditTransfer
mod Tests
pub mod DayAmounts
pub mod Audit
pub mod Flow
