-- ===== src/Write/Flow/Handlers.antt =====
-- src/tools/writeFlow.ts: the tools that draft, validate and approve an intent, and what comes
-- before an execution. The resolution of the caller's token, the random id of a draft and what the
-- validation of an intent answers are arguments.
pub mod Approval
pub mod Ceremony
use whmcs_mcp_server.Prelude.{
  ℕ, String, Bool, true, false, not, ◌||◌, Option, none, some, List, [], ◌∷◌, ◌⊕◌, str_eq,
  if◌then◌else◌,
}
use whmcs_mcp_server.Json.{Fields}
use whmcs_mcp_server.Governance.Consumers.{
  ConsumerProfile, ConsumerDenyReason, no_token, unknown_token, env_forbidden, anonymous_disabled,
  ConsumerResolution, known, unknown, WriteScopeAssertion, granted, scope_not_allowed,
  write_capability_false, assert_write_scope_allowed,
}
use whmcs_mcp_server.Write.Scopes.{WriteScope, scope_text, billing_credit_transfer}
use whmcs_mcp_server.Write.Types
use whmcs_mcp_server.Write.Types.{
  WriteIntent, WriteIntentState, draft, validated, rejected, approved, execution_blocked, executed,
  verified, failed, HumanApprovalRecord, intent_not_approved,
}
use whmcs_mcp_server.Write.Intents.{create_draft_intent, find, same_state}
use whmcs_mcp_server.Write.Audit.{
  intent_drafted, intent_validated, intent_rejected, intent_approved, intent_execution_blocked,
}
use whmcs_mcp_server.Write.Flow.Texts.{reason_text}
use whmcs_mcp_server.Write.Flow.Program.{
  Api, M, pure, gets, ◌>>=◌, ◌>>◌, move_intent, put_intent, set_approval, delete_approval,
  append_event, append_event_at,
}
use whmcs_mcp_server.Write.Flow.Single.{Reply, error_reply, tool_reply, ToolResult, blocked_result}

abbrev pub deny_text : ConsumerDenyReason → String
deny_text no_token = "no_token"
deny_text unknown_token = "unknown_token"
deny_text env_forbidden = "env_forbidden"
deny_text anonymous_disabled = "anonymous_disabled"

abbrev pub state_text : WriteIntentState → String
state_text draft = "draft"
state_text validated = "validated"
state_text rejected = "rejected"
state_text approved = "approved"
state_text execution_blocked = "execution_blocked"
state_text executed = "executed"
state_text verified = "verified"
state_text failed = "failed"

-- A result of a stage that attempts nothing.
abbrev pub plain_result : WriteIntent → ToolResult
plain_result intent = record {
  intent = intent;
  executed = false;
  attempted = false;
  blocked_reason = none;
  verified = none;
  note = none;
}

pub record DraftInput : Type 0 where
  pub scope : WriteScope
  pub params : Fields
  pub natural_key : String
  pub projected_effect : String
  pub preconditions : Option Fields
  pub confirmation : Option String

abbrev pub or_empty_fields : Option Fields → Fields
or_empty_fields none = Fields.end
or_empty_fields (some fs) = fs

-- The intent that a consumer drafts.
abbrev pub drafted :
    (String → String) → (ℕ → String) → String → String → DraftInput → ℕ → WriteIntent
drafted sha256 show uuid consumer_id input now =
    create_draft_intent sha256 show uuid
      (record {
        consumer_id = consumer_id;
        scope = input.scope;
        params = input.params;
        natural_key = input.natural_key;
        preconditions = or_empty_fields input.preconditions;
        projected_effect = input.projected_effect;
        confirmation = input.confirmation;
        contract = none;
        window_ms = none;
        ttl_ms = none;
      })
      now

pub record ApproveInput : Type 0 where
  pub intent_id : String
  pub approver : String
  pub is_approved : Bool
  pub user_confirmation_ref : Option String

abbrev pub approval_detail : ApproveInput → String
approval_detail input = elim input.user_confirmation_ref [
  | none ↦ "by " ⊕ input.approver
  | some ref ↦
      if str_eq ref ""
      then "by " ⊕ input.approver
      else "by " ⊕ input.approver ⊕ " (ref: " ⊕ ref ⊕ ")"
]

-- The capabilities that may not approve.
unfoldable pub may_not_approve : String → Bool
may_not_approve cap = str_eq cap "false" || str_eq cap "disabled" || str_eq cap "draft_only"

abbrev pub is_credit_transfer : WriteScope → Bool
is_credit_transfer billing_credit_transfer = true
is_credit_transfer _ = false

module _ {W : Type 0} (api : Api W) (sha256 : String → String) (show : ℕ → String) where
  abbrev pub refuse : String → M W Reply
  refuse message = pure (error_reply message)

  unfoldable pub draft_granted : ConsumerProfile → DraftInput → String → M W Reply
  unfolding create_draft_intent
  draft_granted profile input uuid = do
    now ← gets (λ st. api.clock st.whmcs)
    put_intent (drafted sha256 show uuid profile.id input now)
    append_event api intent_drafted (drafted sha256 show uuid profile.id input now) none
    pure (tool_reply (plain_result (drafted sha256 show uuid profile.id input now)))

  abbrev pub draft_scoped : WriteScopeAssertion → ConsumerProfile → DraftInput → String → M W Reply
  draft_scoped granted profile input uuid = draft_granted profile input uuid
  draft_scoped scope_not_allowed profile input uuid = refuse "write scope denied: scope_not_allowed"
  draft_scoped write_capability_false profile input uuid =
      refuse "write scope denied: write_capability_false"

  unfoldable pub draft_write_intent : ConsumerResolution → DraftInput → String → M W Reply
  unfolding draft_granted assert_write_scope_allowed scope_text
  draft_write_intent (unknown reason) input uuid = refuse ("consumer denied: " ⊕ deny_text reason)
  draft_write_intent (known profile) input uuid =
      draft_scoped (assert_write_scope_allowed profile (scope_text input.scope)) profile input uuid

  unfoldable pub validate_own : WriteIntent → Bool → M W Reply
  validate_own intent is_valid = do
    next ← move_intent intent.intent_id (if is_valid then validated else rejected)
    append_event api (if is_valid then intent_validated else intent_rejected) next none
    pure (tool_reply (plain_result next))

  abbrev pub validate_found :
      ConsumerProfile → (WriteIntent → Bool) → Option WriteIntent → M W Reply
  validate_found profile validate none = refuse "intent not found"
  validate_found profile validate (some intent) =
      if str_eq intent.consumer_id profile.id
      then validate_own intent (validate intent)
      else refuse "intent does not belong to this consumer"

  unfoldable pub validate_write_intent :
      ConsumerResolution → String → (WriteIntent → Bool) → M W Reply
  unfolding validate_own
  validate_write_intent (unknown reason) id validate =
      refuse ("consumer denied: " ⊕ deny_text reason)
  validate_write_intent (known profile) id validate = do
    found ← gets (λ st. find id st.store)
    validate_found profile validate found

  -- The time that an approval and its audit line bear.
  abbrev pub approval_time : WriteIntent → ℕ → String
  approval_time intent now =
      if is_credit_transfer intent.scope then "pending-whmcs-native" else api.iso now

  unfoldable pub approve_validated : ConsumerProfile → ApproveInput → WriteIntent → M W Reply
  approve_validated profile input intent = do
    next ← move_intent intent.intent_id (if input.is_approved then approved else rejected)
    now ← gets (λ st. api.clock st.whmcs)
    if input.is_approved
        then set_approval intent.intent_id (record {
          approver = input.approver;
          approver_consumer_id = profile.id;
          at = approval_time intent now;
        })
        else delete_approval intent.intent_id
    append_event_at api (approval_time intent now)
        (if input.is_approved then intent_approved else intent_rejected) next
        (some (approval_detail input))
    pure (tool_reply (plain_result next))

  abbrev pub is_validated : WriteIntentState → Bool
  is_validated validated = true
  is_validated _ = false

  abbrev pub approve_scoped :
      WriteScopeAssertion → ConsumerProfile → ApproveInput → WriteIntent → M W Reply
  approve_scoped granted profile input intent =
      if is_validated intent.state
      then approve_validated profile input intent
      else refuse
          ("intent must be validated before approval (state=" ⊕ state_text intent.state ⊕ ")")
  approve_scoped _ profile input intent = refuse "approver not authorized for this write scope"

  abbrev pub approve_found : ConsumerProfile → ApproveInput → Option WriteIntent → M W Reply
  approve_found profile input none = refuse "intent not found"
  approve_found profile input (some intent) =
      approve_scoped (assert_write_scope_allowed profile (scope_text intent.scope)) profile input
        intent

  unfoldable pub approve_write_intent : ConsumerResolution → ApproveInput → M W Reply
  unfolding may_not_approve assert_write_scope_allowed approve_validated scope_text
  approve_write_intent (unknown reason) input = refuse ("consumer denied: " ⊕ deny_text reason)
  approve_write_intent (known profile) input =
      if may_not_approve profile.write_capability
      then refuse "consumer not permitted to approve write intents"
      else gets (λ st. find input.intent_id st.store) >>= approve_found profile input
