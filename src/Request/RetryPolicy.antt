-- ===== src/Request/RetryPolicy.antt =====
-- src/whmcs/request/retryPolicy.ts. The random part of a delay is an argument, in milliseconds.
use whmcs_mcp_server.Prelude.{ℕ, ◌+◌, ◌-◌, ◌*◌, ◌^◌, min, Bool, true, false, not, ◌&&◌, ltb}
use whmcs_mcp_server.Request.Classifier.{ClassifiedWhmcsError}

abbrev pub default_read_attempt_budget : ℕ
default_read_attempt_budget = 3

abbrev pub default_backoff_base_ms : ℕ
default_backoff_base_ms = 1000

abbrev pub default_backoff_max_ms : ℕ
default_backoff_max_ms = 10000

pub data WhmcsRequestEffect : Type 0 where
  read write : WhmcsRequestEffect

abbrev pub is_read : WhmcsRequestEffect → Bool
is_read read = true
is_read write = false

abbrev pub is_write : WhmcsRequestEffect → Bool
is_write read = false
is_write write = true

unfoldable pub should_retry_read :
    ClassifiedWhmcsError → WhmcsRequestEffect → (attempt attempt_budget : ℕ) → Bool → Bool
should_retry_read classified effect attempt attempt_budget retry_enabled =
    is_read effect
    && retry_enabled
    && classified.retryable
    && not classified.cancelled
    && ltb attempt attempt_budget

unfoldable pub get_backoff_delay : (completed_attempt jitter : ℕ) → ℕ
get_backoff_delay completed_attempt jitter =
    min (default_backoff_base_ms * 2 ^ (completed_attempt - 1) + jitter) default_backoff_max_ms
