-- ===== src/Auth.antt =====
-- src/auth: the vocabulary of OAuth scopes and how a token's scopes satisfy a requirement.
pub mod Scopes
pub mod Granted
mod Tests
