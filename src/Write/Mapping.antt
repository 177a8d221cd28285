-- ===== src/Write/Mapping.antt =====
-- src/write/paramMapping.ts: from an intent's parameters to the parameters of its WHMCS action.
pub mod Values
pub mod Billing
pub mod Clients
pub mod Services
pub mod Domains
pub mod Dispatch
pub mod Strict
