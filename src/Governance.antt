-- ===== src/Governance.antt =====
-- src/governance: consumers, what each may read and write.
pub mod Consumers
