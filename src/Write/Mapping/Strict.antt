-- ===== src/Write/Mapping/Strict.antt =====
-- src/write/paramMapping.ts: which keys a mapper can emit, whatever an intent's parameters hold.
pub mod Keys
pub mod Table
pub mod Scopes
