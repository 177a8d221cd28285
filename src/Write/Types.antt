-- ===== src/Write/Types.antt =====
-- src/write/types.ts: write intents, execution requests and decisions.
-- A time is a number of milliseconds; the program keeps it as an ISO text and parses it back.
use whmcs_mcp_server.Prelude.{ℕ, String, Bool, List, Option}
use whmcs_mcp_server.Prelude.JsNumber.{JsNumber}
use whmcs_mcp_server.Json.{Fields}
use whmcs_mcp_server.Write.Scopes.{WriteRisk, WriteScope}

pub data WriteIntentState : Type 0 where
  draft validated rejected approved execution_blocked executed verified failed : WriteIntentState

pub record WriteIntent : Type 0 where
  pub intent_id : String
  pub consumer_id : String
  pub scope : WriteScope
  pub action : String
  pub risk : WriteRisk
  pub params : Fields
  pub idempotency_key : String
  pub preconditions : Fields
  pub projected_effect : String
  pub confirmation : Option String
  pub state : WriteIntentState
  pub created_at : ℕ
  pub expires_at : ℕ
  pub contract : Option String

pub data ExecutionEnv : Type 0 where
  local_env staging production : ExecutionEnv

pub data McpMode : Type 0 where
  read_only simulate full : McpMode

pub record HumanApprovalRecord : Type 0 where
  pub approver : String
  pub approver_consumer_id : String
  pub at : String

pub record AmountContext : Type 0 where
  pub amount : JsNumber
  pub day_total : JsNumber

pub record HighRiskCaps : Type 0 where
  pub per_action : JsNumber
  pub daily : JsNumber

-- An optional field is an `Option`.
pub record ExecutionRequest : Type 0 where
  pub intent : WriteIntent
  pub env : ExecutionEnv
  pub mcp_mode : McpMode
  pub consumer_write_capability : String
  pub runtime_authorized_actions : List String
  pub kill_switch : Option Bool
  pub prod_authorized_actions : Option (List String)
  pub human_approval : Option HumanApprovalRecord
  pub amount_context : Option AmountContext
  pub caps : Option HighRiskCaps
  pub strict_allowlist : Option Bool
  pub strict_scopes : Option (List String)
  pub require_distinct_approver : Option Bool
  pub allow_high_risk_self_approval : Option Bool
  pub destructive_confirm_phrase : Option String
  pub allowed_destructive_scopes : Option (List String)

-- The reasons of the gate, then those of the later stages of the write flow.
pub data ExecutionDeniedReason : Type 0 where
  kill_switch_engaged read_only_mode intent_not_approved : ExecutionDeniedReason
  consumer_not_execution_allowed idempotency_replay : ExecutionDeniedReason
  action_permanently_blocked destructive_confirmation_required : ExecutionDeniedReason
  action_not_prod_authorized action_not_runtime_authorized : ExecutionDeniedReason
  human_approval_required self_approval_forbidden amount_cap_exceeded : ExecutionDeniedReason
  audit_write_failed verification_failed precondition_mismatch : ExecutionDeniedReason
  scope_not_allowed halt_after_target target_amount_cap_exceeded : ExecutionDeniedReason
  target_output_assertion_failed unsupported_capability : ExecutionDeniedReason
  transfer_rolled_back batch_too_large : ExecutionDeniedReason

pub data ExecutionDecision : Type 0 where
  allowed : ExecutionDecision
  denied : ExecutionDeniedReason → ExecutionDecision
