-- ===== src/Write/Flow/Single.antt =====
-- src/tools/writeFlow.ts: the execution of an intent that is one WHMCS call.
use whmcs_mcp_server.Prelude.{
  String, Bool, true, false, Option, none, some, [], ◌∷◌, ◌⊕◌, if◌then◌else◌,
}
use whmcs_mcp_server.Prelude.JsMap
use whmcs_mcp_server.Json.{Json, boolean, text, Fields, field, end, property, object}
use whmcs_mcp_server.Write.Scopes.{WriteScope, service_domain_rename}
use whmcs_mcp_server.Write.Types.{
  WriteIntent, executed, failed, verified, execution_blocked, ExecutionRequest, ExecutionDecision,
  allowed, denied, ExecutionDeniedReason, precondition_mismatch, audit_write_failed, AmountContext,
  HumanApprovalRecord,
}
use whmcs_mcp_server.Write.Gate.{default_execution_authorizer, is_high}
use whmcs_mcp_server.Write.DayAmounts.{get_total}
use whmcs_mcp_server.Write.Audit.{
  intent_execution_blocked, intent_executed, intent_failed, intent_verified,
}
use whmcs_mcp_server.Write.Mapping.Values.{Js, Output}
use whmcs_mcp_server.Write.Mapping.Services.{
  Mapping, mapped, refused, MappingError, price_restore_is_batch_shaped, exactly_one_domain,
  rows_must_be_objects, cannot_convert, rows_require_domain_regperiod_price, requires_paymentmethod,
}
use whmcs_mcp_server.Write.Mapping.Dispatch.{intent_to_whmcs_params}
use whmcs_mcp_server.Write.Flow.Texts.{reason_text, risk_text, env_text}
use whmcs_mcp_server.Write.Flow.Program.{
  Api, Flow, M, Config, pure, gets, ◌>>=◌, ◌>>◌, move_intent, read, mutate, append_event,
  append_event_durable, add_amount, record_key, is_replay,
}
use whmcs_mcp_server.Write.Flow.Amounts.{amount_context_for}
use whmcs_mcp_server.Write.Flow.Assertions.{assert_output}
use whmcs_mcp_server.Write.Flow.Products.{
  first_product, is_closed, same_domain, has_expected_domain,
}

-- What a tool answers: an error, or a result. The rendering of `would_call` and of the preflight
-- advice is left out.
pub record ToolResult : Type 0 where
  pub intent : WriteIntent
  pub executed : Bool
  pub attempted : Bool
  pub blocked_reason : Option ExecutionDeniedReason
  pub verified : Option Bool
  pub note : Option String

pub data Reply : Type 0 where
  error_reply : String → Reply
  tool_reply : ToolResult → Reply

abbrev pub blocked_result : WriteIntent → ExecutionDeniedReason → Option String → ToolResult
blocked_result intent reason note = record {
  intent = intent;
  executed = false;
  attempted = false;
  blocked_reason = some reason;
  verified = none;
  note = note;
}

abbrev pub failed_result : WriteIntent → String → ToolResult
failed_result intent message = record {
  intent = intent;
  executed = false;
  attempted = true;
  blocked_reason = none;
  verified = none;
  note = some ("Execution failed: " ⊕ message);
}

abbrev pub executed_result : WriteIntent → Bool → ToolResult
executed_result intent is_verified = record {
  intent = intent;
  executed = true;
  attempted = true;
  blocked_reason = none;
  verified = some is_verified;
  note = none;
}

-- The message of the error that the mapper throws.
unfoldable pub mapping_error_text : MappingError → String
mapping_error_text price_restore_is_batch_shaped =
    "service:price_restore is batch-shaped; call mapServicePriceRestoreTarget per target"
mapping_error_text exactly_one_domain =
    "order:create requires exactly one domain per intent; fan out separate intents"
mapping_error_text rows_must_be_objects = "order:create domain rows must be objects"
mapping_error_text rows_require_domain_regperiod_price =
    Prim.Native.String.◌++◌ "order:create domain rows require domain, positive integer regperiod, "
      "and non-negative price"
mapping_error_text requires_paymentmethod = "order:create requires paymentmethod"
mapping_error_text cannot_convert = "Cannot convert object to primitive value"

abbrev pub is_domain_rename : WriteScope → Bool
is_domain_rename service_domain_rename = true
is_domain_rename _ = false

-- `{ executing: true }`
abbrev pub executing_mark : Json
executing_mark = object (field "executing" (boolean true) end)

module _ {W : Type 0} (api : Api W) (js : Js) (cfg : Config) where
  -- The request of the single-call path.
  unfoldable pub request_of :
      String → WriteIntent → Option HumanApprovalRecord → Option AmountContext → ExecutionRequest
  request_of capability intent approval amount = record {
    intent = intent;
    env = cfg.env;
    mcp_mode = cfg.mcp_mode;
    consumer_write_capability = capability;
    runtime_authorized_actions = cfg.runtime_authorized_actions;
    kill_switch = some cfg.kill_switch;
    prod_authorized_actions = some cfg.prod_authorized_actions;
    human_approval = approval;
    amount_context = amount;
    caps = some cfg.caps;
    strict_allowlist = some cfg.strict_allowlist;
    strict_scopes = some cfg.strict_scopes;
    require_distinct_approver = some cfg.require_distinct_approver;
    allow_high_risk_self_approval = none;
    destructive_confirm_phrase = some cfg.destructive_confirm_phrase;
    allowed_destructive_scopes = some cfg.allowed_destructive_scopes;
  }

  unfoldable pub amount_now : WriteIntent → Flow W → Option AmountContext
  unfolding amount_context_for
  amount_now intent st =
      if is_high intent.risk
      then amount_context_for js intent.action intent.params
          (get_total intent.action (api.utc_day (api.clock st.whmcs)) st.day_amounts)
      else none

  -- What the gate answers in a state.
  unfoldable pub decision_now : String → WriteIntent → Flow W → ExecutionDecision
  unfolding request_of amount_now
  decision_now capability intent st =
      default_execution_authorizer
        (request_of capability intent (JsMap.get intent.intent_id st.approvals)
          (amount_now intent st))
        (is_replay api st)

  -- The intent is moved to `execution_blocked`, and the reason is kept.
  unfoldable pub block : WriteIntent → ExecutionDeniedReason → Option String → M W Reply
  unfolding pure reason_text
  block intent reason note = do
    blocked ← move_intent intent.intent_id execution_blocked
    append_event api intent_execution_blocked blocked (some (reason_text reason))
    pure (tool_reply (blocked_result blocked reason note))

  abbrev pub check_product : WriteIntent → Option Fields → Option ExecutionDeniedReason
  check_product intent none = some precondition_mismatch
  check_product intent (some p) =
      if is_closed p
      then some precondition_mismatch
      else if has_expected_domain js (property "expected_old_domain" intent.params) p
      then none
      else some precondition_mismatch

  abbrev pub check_response : WriteIntent → Option Fields → Option ExecutionDeniedReason
  check_response intent none = some precondition_mismatch
  check_response intent (some resp) = check_product intent (first_product resp)

  abbrev pub service_query : WriteIntent → Output
  service_query intent = ("serviceid", property "serviceid" intent.params) ∷ []

  -- `none` where the precondition holds.
  unfoldable pub precheck_domain_rename : WriteIntent → M W (Option ExecutionDeniedReason)
  unfolding first_product is_closed has_expected_domain
  precheck_domain_rename intent = do
    resp ← read api "GetClientsProducts" (service_query intent)
    pure (check_response intent resp)

  unfoldable pub precheck : WriteIntent → M W (Option ExecutionDeniedReason)
  unfolding precheck_domain_rename
  precheck intent =
      if is_domain_rename intent.scope then precheck_domain_rename intent else pure none

  abbrev pub send_unless : WriteIntent → Output → Option String → M W (Option String)
  send_unless intent out (some message) = pure (some message)
  send_unless intent out none = mutate api intent.action out

  -- The block that maps, asserts and calls: the message of what it throws, if it throws.
  unfoldable pub send : WriteIntent → Mapping → M W (Option String)
  unfolding assert_output mapping_error_text
  send intent (refused e) = pure (some (mapping_error_text e))
  send intent (mapped out) = send_unless intent out (assert_output intent.scope out)

  abbrev pub domain_became : WriteIntent → Option Fields → Bool
  domain_became intent none = false
  domain_became intent (some p) =
      same_domain js (property "domain" p) (property "domain" intent.params)

  abbrev pub read_back : WriteIntent → Option Fields → Bool
  read_back intent none = false
  read_back intent (some resp) = domain_became intent (first_product resp)

  abbrev pub returned : Option Fields → Bool
  returned none = false
  returned (some resp) = true

  abbrev pub verify_by_action : Option Json → M W Bool
  verify_by_action (some (text action)) = do resp ← read api action []; pure (returned resp)
  verify_by_action _ = pure false

  -- The read-back after the call; a read that throws verifies nothing.
  unfoldable pub verify : WriteIntent → M W Bool
  unfolding first_product same_domain
  verify intent =
      if is_domain_rename intent.scope
      then (do
        resp ← read api "GetClientsProducts" (service_query intent)
        pure (read_back intent resp))
      else verify_by_action (property "verifyAction" intent.preconditions)

  abbrev pub tally : WriteIntent → Option AmountContext → M W (Unit {0})
  tally intent none = pure tt
  tally intent (some amt) =
      if is_high intent.risk then add_amount api intent.action amt.amount else pure tt

  -- After the call: `executing` is the intent in the state `executed`.
  unfoldable pub settle :
      WriteIntent → WriteIntent → Option AmountContext → Option String → M W Reply
  unfolding verify
  settle intent executing amount (some message) = do
    gone ← move_intent intent.intent_id failed
    append_event api intent_failed gone (some message)
    pure (tool_reply (failed_result gone message))
  settle intent executing amount none = do
    tally intent amount
    is_verified ← verify intent
    final ← if is_verified then move_intent intent.intent_id verified else pure executing
    append_event api (if is_verified then intent_verified else intent_executed) final (
        some (
          if is_verified
          then "post-action verified"
          else "executed; post-action verification unavailable"))
    pure (tool_reply (executed_result final is_verified))

  -- The key is recorded before the call.
  unfoldable pub commit : WriteIntent → Option AmountContext → M W Reply
  unfolding send settle intent_to_whmcs_params
  commit intent amount = do
    record_key api intent.idempotency_key executing_mark
    executing ← move_intent intent.intent_id executed
    thrown ←
        send intent
          (intent_to_whmcs_params js intent.scope intent.params (some intent.idempotency_key))
    settle intent executing amount thrown

  abbrev pub attempt_text : WriteIntent → String
  attempt_text intent =
      "attempting "
      ⊕ intent.action
      ⊕ " (risk="
      ⊕ risk_text intent.risk
      ⊕ ", env="
      ⊕ env_text cfg.env
      ⊕ ")"

  abbrev pub refused_note : String
  refused_note = "Durable audit write failed; mutation refused (fail-closed)."

  -- Nothing is sent unless the attempt's line is durable.
  unfoldable pub audited_commit : WriteIntent → Option AmountContext → M W Reply
  unfolding commit block risk_text env_text
  audited_commit intent amount = do
    done ← append_event_durable api intent_executed intent (some (attempt_text intent))
    if done then commit intent amount else block intent audit_write_failed (some refused_note)

  abbrev pub unless_mismatch :
      WriteIntent → Option AmountContext → Option ExecutionDeniedReason → M W Reply
  unless_mismatch intent amount (some reason) = block intent reason none
  unless_mismatch intent amount none = audited_commit intent amount

  abbrev pub decide : WriteIntent → Option AmountContext → ExecutionDecision → M W Reply
  decide intent amount (denied reason) = block intent reason none
  decide intent amount allowed = do problem ← precheck intent; unless_mismatch intent amount problem

  unfoldable pub execute_single : String → WriteIntent → M W Reply
  unfolding audited_commit block precheck amount_now decision_now
  execute_single capability intent = do
    amount ← gets (amount_now intent)
    decision ← gets (decision_now capability intent)
    decide intent amount decision
