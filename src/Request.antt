-- ===== src/Request.antt =====
-- src/whmcs/request: how one logical call to WHMCS is classified, repaired and retried.
pub mod Classifier
pub mod RetryPolicy
pub mod Pipeline
pub mod Attempts
pub mod Interrupted
mod Tests
