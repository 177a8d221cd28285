-- ===== src/Write/Flow.antt =====
-- src/tools/writeFlow.ts: the tools that draft, validate, approve and execute a write intent.
pub mod Texts
pub mod Program
pub mod Amounts
pub mod Assertions
pub mod Products
pub mod Single
pub mod Steps
pub mod Ends
pub mod Safety
pub mod Targets
pub mod PriceRestore
pub mod Handlers
pub mod Execute
mod Samples
mod Tests
