-- ===== src/Write/Gate.antt =====
-- src/write/executionGate.ts: the authorizer of executions. It decides and never calls WHMCS.
pub mod Rules
pub mod PreAuthorize
pub mod Risk
pub mod Keystone
pub mod Order
use whmcs_mcp_server.Prelude.{
  String, Bool, true, false, not, ◌&&◌, ◌||◌, Option, none, some, List, [], ◌∷◌, str_eq, includes,
  if◌then◌else◌,
}
use whmcs_mcp_server.Prelude.JsNumber.{JsNumber, num_zero, is_finite, lt, le, plus}
use whmcs_mcp_server.Write.Scopes.{
  WriteRisk, low, medium, high, scope_text, prod_never_executable, prod_never_executable_scopes,
  destructive_write_scopes,
}
use whmcs_mcp_server.Write.Types.{
  WriteIntentState, approved, WriteIntent, ExecutionEnv, production, McpMode, read_only,
  HumanApprovalRecord, AmountContext, HighRiskCaps, ExecutionRequest, ExecutionDecision, allowed,
  denied, kill_switch_engaged, read_only_mode, intent_not_approved, consumer_not_execution_allowed,
  idempotency_replay, action_permanently_blocked, destructive_confirmation_required,
  action_not_prod_authorized, action_not_runtime_authorized, human_approval_required,
  self_approval_forbidden, amount_cap_exceeded,
}

abbrev pub consumer_execution_allowed : String
consumer_execution_allowed = "execution_allowed"

abbrev pub zero_caps : HighRiskCaps
zero_caps = record { per_action = num_zero; daily = num_zero }

-- `flag === true` on an optional flag
abbrev pub is_true : Option Bool → Bool
is_true none = false
is_true (some b) = b

-- `list ?? []`
abbrev pub or_empty : Option (List String) → List String
or_empty none = []
or_empty (some l) = l

abbrev pub is_approved : WriteIntentState → Bool
is_approved approved = true
is_approved _ = false

abbrev pub is_read_only : McpMode → Bool
is_read_only read_only = true
is_read_only _ = false

abbrev pub is_high : WriteRisk → Bool
is_high high = true
is_high _ = false

unfoldable pub allowlist_authorizes : List String → String → String → Bool
allowlist_authorizes allow action scope = includes allow action || includes allow scope

unfoldable pub is_destructive : WriteIntent → Bool
is_destructive intent = includes destructive_write_scopes (scope_text intent.scope)

-- The test of step 6, the opt-out of destructive scopes included.
unfoldable pub permanently_blocked : ExecutionRequest → Bool
permanently_blocked req =
    let scope = scope_text req.intent.scope in
    (includes prod_never_executable req.intent.action
      || includes prod_never_executable_scopes scope)
    && not (is_destructive req.intent && includes (or_empty req.allowed_destructive_scopes) scope)

-- The test of step 6b.
unfoldable pub phrase_confirmed : Option String → Option String → Bool
phrase_confirmed none confirmation = false
phrase_confirmed (some phrase) none = false
phrase_confirmed (some phrase) (some typed) = not (str_eq phrase "") && str_eq typed phrase

unfoldable pub allowlist_required : ExecutionRequest → Bool
allowlist_required req =
    not (is_destructive req.intent)
    && (is_high req.intent.risk
        || is_true req.strict_allowlist
        || includes (or_empty req.strict_scopes) (scope_text req.intent.scope))

-- Step 7 once the allowlist is required.
unfoldable pub check_allowlist : ExecutionEnv → ExecutionRequest → ExecutionDecision
check_allowlist production req =
    if allowlist_authorizes (or_empty req.prod_authorized_actions) req.intent.action
      (scope_text req.intent.scope)
    then allowed
    else denied action_not_prod_authorized
check_allowlist _ req =
    if allowlist_authorizes req.runtime_authorized_actions req.intent.action
      (scope_text req.intent.scope)
    then allowed
    else denied action_not_runtime_authorized

-- `already_executed` is the caller's replay predicate.
unfoldable pub pre_authorize_intent : ExecutionRequest → (String → Bool) → ExecutionDecision
pre_authorize_intent req already_executed =
    if is_true req.kill_switch
    then denied kill_switch_engaged
    else if is_read_only req.mcp_mode
    then denied read_only_mode
    else if not (is_approved req.intent.state)
    then denied intent_not_approved
    else if not (str_eq req.consumer_write_capability consumer_execution_allowed)
    then denied consumer_not_execution_allowed
    else if already_executed req.intent.idempotency_key
    then denied idempotency_replay
    else if permanently_blocked req
    then denied action_permanently_blocked
    else if is_destructive req.intent
        && not (phrase_confirmed req.destructive_confirm_phrase req.intent.confirmation)
    then denied destructive_confirmation_required
    else if allowlist_required req
    then check_allowlist req.env req
    else allowed

abbrev pub or_zero_caps : Option HighRiskCaps → HighRiskCaps
or_zero_caps none = zero_caps
or_zero_caps (some caps) = caps

-- `Number.isFinite(cap) ? cap : 0`
abbrev pub finite_or_zero : JsNumber → JsNumber
finite_or_zero cap = if is_finite cap then cap else num_zero

-- `req.humanApproval?.approver_consumer_id === id`
unfoldable pub approved_by : Option HumanApprovalRecord → String → Bool
approved_by none id = false
approved_by (some record_of) id = str_eq record_of.approver_consumer_id id

abbrev pub is_missing : Option HumanApprovalRecord → Bool
is_missing none = true
is_missing (some _) = false

-- The caps of step 8. `amount > cap` is `lt cap amount`.
unfoldable pub check_caps : HighRiskCaps → Option AmountContext → ExecutionDecision
check_caps raw none = denied amount_cap_exceeded
check_caps raw (some amt) =
    let per_action = finite_or_zero raw.per_action in
    let daily = finite_or_zero raw.daily in
    if le per_action num_zero || lt per_action amt.amount
    then denied amount_cap_exceeded
    else if le daily num_zero || lt daily (plus amt.day_total amt.amount)
    then denied amount_cap_exceeded
    else allowed

-- Step 8 for a scope that is not destructive.
unfoldable pub check_risk : WriteRisk → ExecutionRequest → ExecutionDecision
check_risk high req =
    if is_missing req.human_approval && not (is_true req.allow_high_risk_self_approval)
    then denied human_approval_required
    else if approved_by req.human_approval req.intent.consumer_id
    then denied self_approval_forbidden
    else check_caps (or_zero_caps req.caps) req.amount_context
check_risk _ req =
    if is_true req.require_distinct_approver
      && not (is_missing req.human_approval)
      && approved_by req.human_approval req.intent.consumer_id
    then denied self_approval_forbidden
    else allowed

unfoldable pub default_execution_authorizer : ExecutionRequest → (String → Bool) → ExecutionDecision
default_execution_authorizer req already_executed =
    elim (pre_authorize_intent req already_executed) [
      | denied reason ↦ denied reason
      | allowed ↦ if is_destructive req.intent then allowed else check_risk req.intent.risk req
    ]
