-- ===== src/Write/Flow/Texts.antt =====
-- src/write/types.ts: the texts of the reasons, risks and environments, as the audit log holds
-- them.
use whmcs_mcp_server.Prelude.{String}
use whmcs_mcp_server.Write.Scopes.{WriteRisk, low, medium, high}
use whmcs_mcp_server.Write.Types.{
  ExecutionEnv, local_env, staging, production, ExecutionDeniedReason, kill_switch_engaged,
  read_only_mode, intent_not_approved, consumer_not_execution_allowed, idempotency_replay,
  action_permanently_blocked, destructive_confirmation_required, action_not_prod_authorized,
  action_not_runtime_authorized, human_approval_required, self_approval_forbidden,
  amount_cap_exceeded, audit_write_failed, verification_failed, precondition_mismatch,
  scope_not_allowed, halt_after_target, target_amount_cap_exceeded, target_output_assertion_failed,
  unsupported_capability, transfer_rolled_back, batch_too_large,
}

unfoldable pub risk_text : WriteRisk → String
risk_text low = "low"
risk_text medium = "medium"
risk_text high = "high"

unfoldable pub env_text : ExecutionEnv → String
env_text local_env = "local"
env_text staging = "staging"
env_text production = "production"

unfoldable pub reason_text : ExecutionDeniedReason → String
reason_text kill_switch_engaged = "kill_switch_engaged"
reason_text read_only_mode = "read_only_mode"
reason_text intent_not_approved = "intent_not_approved"
reason_text consumer_not_execution_allowed = "consumer_not_execution_allowed"
reason_text idempotency_replay = "idempotency_replay"
reason_text action_permanently_blocked = "action_permanently_blocked"
reason_text action_not_prod_authorized = "action_not_prod_authorized"
reason_text action_not_runtime_authorized = "action_not_runtime_authorized"
reason_text human_approval_required = "human_approval_required"
reason_text amount_cap_exceeded = "amount_cap_exceeded"
reason_text self_approval_forbidden = "self_approval_forbidden"
reason_text destructive_confirmation_required = "destructive_confirmation_required"
reason_text audit_write_failed = "audit_write_failed"
reason_text verification_failed = "verification_failed"
reason_text precondition_mismatch = "precondition_mismatch"
reason_text scope_not_allowed = "scope_not_allowed"
reason_text halt_after_target = "halt_after_target"
reason_text target_amount_cap_exceeded = "target_amount_cap_exceeded"
reason_text target_output_assertion_failed = "target_output_assertion_failed"
reason_text unsupported_capability = "unsupported_capability"
reason_text transfer_rolled_back = "transfer_rolled_back"
reason_text batch_too_large = "batch_too_large"
