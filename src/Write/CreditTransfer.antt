-- ===== src/Write/CreditTransfer.antt =====
-- src/write/creditTransfer.ts: transfers of account credit between two clients.
pub mod Types
pub mod Program
pub mod Texts
pub mod Compensation
pub mod Settlement
pub mod Execute
mod Yields
mod Quiet
mod Stages
mod Ready
mod Prepared
mod Legs
mod Conserved
mod Tests
