-- ===== src/Write/Flow/Execute.antt =====
-- src/tools/writeFlow.ts: `executeRun`, which the execution of every intent goes through.
-- The execution of a credit transfer and the direct-database transfer of an owner are arguments.
pub mod Entitled
use whmcs_mcp_server.Prelude.{
  String, Bool, true, false, Option, none, some, str_eq, ◌⊕◌, if◌then◌else◌,
}
use whmcs_mcp_server.Prelude.JsMap
use whmcs_mcp_server.Governance.Consumers.{
  ConsumerProfile, ConsumerResolution, known, unknown, WriteScopeAssertion, granted,
  assert_write_scope_allowed,
}
use whmcs_mcp_server.Write.Scopes.{
  WriteScope, scope_text, billing_credit_transfer, service_price_restore, billing_invoice_reassign,
  service_transfer_owner,
}
use whmcs_mcp_server.Write.Types
use whmcs_mcp_server.Write.Types.{
  WriteIntent, WriteIntentState, approved, executed, execution_blocked, ExecutionDecision, allowed,
  denied, ExecutionDeniedReason, HumanApprovalRecord, intent_not_approved, scope_not_allowed,
  unsupported_capability, human_approval_required, self_approval_forbidden,
}
use whmcs_mcp_server.Write.Intents.{find}
use whmcs_mcp_server.Write.Gate.{pre_authorize_intent, is_approved}
use whmcs_mcp_server.Write.Audit.{intent_execution_blocked}
use whmcs_mcp_server.Write.Mapping.Values.{Js}
use whmcs_mcp_server.Write.Flow.Texts.{reason_text}
use whmcs_mcp_server.Write.Flow.Program.{
  Api, Flow, M, Config, pure, gets, ◌>>=◌, ◌>>◌, move_intent, append_event, is_replay,
}
use whmcs_mcp_server.Write.Flow.Single.{
  Reply, error_reply, tool_reply, ToolResult, blocked_result, request_of, block, execute_single,
}
use whmcs_mcp_server.Write.Flow.Targets.{BatchResult}
use whmcs_mcp_server.Write.Flow.PriceRestore.{execute_price_restore_batch}
use whmcs_mcp_server.Write.Flow.Handlers.{deny_text}

-- The answer to an execution: of one call, or with the two phases of a batch.
pub data RunReply : Type 0 where
  single_reply : Reply → RunReply
  batch_reply : ToolResult → BatchResult → RunReply

abbrev pub batch_result : WriteIntent → Bool → Bool → Option ExecutionDeniedReason → ToolResult
batch_result intent is_executed attempted reason = record {
  intent = intent;
  executed = is_executed;
  attempted = attempted;
  blocked_reason = reason;
  verified = none;
  note = none;
}

abbrev pub text_or_unknown : Option ExecutionDeniedReason → String
text_or_unknown none = "unknown"
text_or_unknown (some reason) = reason_text reason

module _ {W : Type 0} (api : Api W) (js : Js) (cfg : Config)
    (credit_transfer : ConsumerProfile → WriteIntent → M W RunReply)
    (owner_transfer : WriteIntent → M W RunReply) where
  abbrev pub as_single : M W Reply → M W RunReply
  as_single m = do reply ← m; pure (single_reply reply)

  abbrev pub fail_with : String → M W RunReply
  fail_with message = pure (single_reply (error_reply message))

  -- Steps 1 to 7 of the gate, which the batches consult.
  unfoldable pub pre_decision : String → WriteIntent → Flow W → ExecutionDecision
  unfolding request_of
  pre_decision capability intent st =
      pre_authorize_intent
        (record (request_of api js cfg capability intent none none) {
          caps = none;
          require_distinct_approver = none;
        })
        (is_replay api st)

  abbrev pub report_batch : WriteIntent → BatchResult → M W RunReply
  report_batch intent r =
      if r.allowed
      then (if r.dry_run then pure (batch_reply (batch_result intent false false none) r) else (do
        final ← move_intent intent.intent_id executed
        pure (batch_reply (batch_result final true true none) r)))
      else (do
        blocked ← move_intent intent.intent_id execution_blocked
        append_event api intent_execution_blocked blocked (some (text_or_unknown r.reason))
        pure (batch_reply (batch_result blocked false false r.reason) r))

  unfoldable pub run_price_restore : WriteIntent → M W RunReply
  unfolding execute_price_restore_batch reason_text
  run_price_restore intent = do
    r ← execute_price_restore_batch api js cfg.caps intent
    report_batch intent r

  -- A batch needs the approval of another consumer than the drafter.
  abbrev pub unless_unapproved :
      WriteIntent → M W RunReply → Option HumanApprovalRecord → M W RunReply
  unless_unapproved intent body none =
      as_single (block api js cfg intent human_approval_required none)
  unless_unapproved intent body (some approval) =
      if str_eq approval.approver_consumer_id intent.consumer_id
      then as_single (block api js cfg intent self_approval_forbidden none)
      else body

  abbrev pub unless_denied : WriteIntent → M W RunReply → ExecutionDecision → M W RunReply
  unless_denied intent body (denied reason) = as_single (block api js cfg intent reason none)
  unless_denied intent body allowed =
      gets (λ st. JsMap.get intent.intent_id st.approvals) >>= unless_unapproved intent body

  unfoldable pub guarded_batch : String → WriteIntent → M W RunReply → M W RunReply
  unfolding pre_decision block
  guarded_batch capability intent body =
      gets (pre_decision capability intent) >>= unless_denied intent body

  abbrev pub run_scope : WriteScope → ConsumerProfile → WriteIntent → M W RunReply
  run_scope billing_credit_transfer profile intent = credit_transfer profile intent
  run_scope service_price_restore profile intent =
      guarded_batch profile.write_capability intent (run_price_restore intent)
  run_scope billing_invoice_reassign profile intent =
      as_single (block api js cfg intent unsupported_capability none)
  run_scope service_transfer_owner profile intent =
      guarded_batch profile.write_capability intent (owner_transfer intent)
  run_scope _ profile intent = as_single (execute_single api js cfg profile.write_capability intent)

  -- The grant of the scope is checked again when the intent is executed.
  abbrev pub run_granted : WriteScopeAssertion → ConsumerProfile → WriteIntent → M W RunReply
  run_granted granted profile intent = run_scope intent.scope profile intent
  run_granted _ profile intent = as_single (block api js cfg intent scope_not_allowed none)

  abbrev pub report_unapproved : WriteIntent → M W RunReply
  report_unapproved intent = do
    append_event api intent_execution_blocked intent (some "intent_not_approved")
    pure (single_reply (tool_reply (blocked_result intent intent_not_approved none)))

  abbrev pub run_own : ConsumerProfile → WriteIntent → M W RunReply
  run_own profile intent =
      if is_approved intent.state
      then run_granted (assert_write_scope_allowed profile (scope_text intent.scope)) profile intent
      else report_unapproved intent

  abbrev pub run_found : ConsumerProfile → Option WriteIntent → M W RunReply
  run_found profile none = fail_with "intent not found"
  run_found profile (some intent) =
      if str_eq intent.consumer_id profile.id
      then run_own profile intent
      else fail_with "intent does not belong to this consumer"

  unfoldable pub execute_run : ConsumerResolution → String → M W RunReply
  unfolding run_price_restore guarded_batch execute_single block assert_write_scope_allowed
      scope_text
  execute_run (unknown reason) id = fail_with ("consumer denied: " ⊕ deny_text reason)
  execute_run (known profile) id = gets (λ st. find id st.store) >>= run_found profile
