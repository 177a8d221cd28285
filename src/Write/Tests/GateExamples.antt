-- ===== src/Write/Tests/GateExamples.antt =====
-- The gate on an approved credit and on a termination.
use whmcs_mcp_server.Prelude.{
  ℕ, pos, String, ◌≡◌, ◌≢◌, ◌↔◌, refl, Bool, true, false, Option, none, some, List, [], ◌∷◌, ◌≤ℤ◌,
  ◌+ℤ◌, arith, str_eq,
}
use whmcs_mcp_server.Prelude.JsNumber.{finite}
use whmcs_mcp_server.Json.{end}
use whmcs_mcp_server.Write.Scopes.{
  WriteScope, billing_credit_add, service_terminate, scope_text, scope_action, scope_risk, high,
}
use whmcs_mcp_server.Write.Types.{
  WriteIntent, ExecutionRequest, approved, production, full, allowed, denied, idempotency_replay,
}
use whmcs_mcp_server.Write.Gate.{default_execution_authorizer, pre_authorize_intent, or_empty}
use whmcs_mcp_server.Write.Gate.Rules.{IsDestructive, IsPreAuthorized, InOptional}
use whmcs_mcp_server.Write.Gate.Risk.{IsOtherHand}
use whmcs_mcp_server.Write.Gate.PreAuthorize.{pre_authorize_intent_iff}
use whmcs_mcp_server.Write.Gate.Order.{pre_authorize_intent-IsFirstFailure, IsFirstFailure}
use whmcs_mcp_server.Write.Gate.Keystone.{
  destructive_needs_phrase, production_sealed, high_risk_within_caps, strictness_tightens, loosened,
}

abbrev intent_of : WriteScope → Option String → WriteIntent
intent_of scope confirmation = record {
  intent_id = "intent-1";
  consumer_id = "drafter";
  scope = scope;
  action = scope_action scope;
  risk = scope_risk scope;
  params = end;
  idempotency_key = "key-1";
  preconditions = end;
  projected_effect = "";
  confirmation = confirmation;
  state = approved;
  created_at = 0;
  expires_at = 1000;
  contract = none;
}

-- A credit of 10.00, approved by another consumer, in production.
abbrev credit_request : ExecutionRequest
credit_request = record {
  intent = intent_of billing_credit_add none;
  env = production;
  mcp_mode = full;
  consumer_write_capability = "execution_allowed";
  runtime_authorized_actions = [];
  kill_switch = some false;
  prod_authorized_actions = some (scope_action billing_credit_add ∷ []);
  human_approval =
      some (record { approver = "Ann"; approver_consumer_id = "approver"; at = "now" });
  amount_context = some (record { amount = finite (pos 1000); day_total = finite (pos 500) });
  caps = some (record { per_action = finite (pos 2000); daily = finite (pos 5000) });
  strict_allowlist = some false;
  strict_scopes = none;
  require_distinct_approver = some true;
  allow_high_risk_self_approval = none;
  destructive_confirm_phrase = none;
  allowed_destructive_scopes = none;
}

abbrev terminate_request : ExecutionRequest
terminate_request = record credit_request {
  intent = intent_of service_terminate (some "I MEAN IT");
  destructive_confirm_phrase = some "I MEAN IT";
  allowed_destructive_scopes = some (scope_text service_terminate ∷ []);
}

abbrev sealed_request : ExecutionRequest
sealed_request = record credit_request { prod_authorized_actions = none }

abbrev never : String → Bool
never key = false

abbrev always : String → Bool
always key = true

credit_allowed : default_execution_authorizer credit_request never ≡ allowed
unfolding default_execution_authorizer scope_text scope_action scope_risk pre_authorize_intent
    whmcs_mcp_server.Write.Gate.permanently_blocked
    whmcs_mcp_server.Write.Scopes.prod_never_executable
    whmcs_mcp_server.Write.Scopes.prod_never_executable_scopes
    whmcs_mcp_server.Write.Gate.is_destructive
    whmcs_mcp_server.Write.Scopes.destructive_write_scopes
    whmcs_mcp_server.Write.Gate.allowlist_required whmcs_mcp_server.Write.Gate.check_allowlist
    whmcs_mcp_server.Write.Gate.allowlist_authorizes whmcs_mcp_server.Write.Gate.check_risk
    whmcs_mcp_server.Write.Gate.approved_by whmcs_mcp_server.Write.Gate.check_caps
    whmcs_mcp_server.Prelude.JsNumber.plus ◌+ℤ◌
credit_allowed = refl

terminate_allowed : default_execution_authorizer terminate_request never ≡ allowed
unfolding default_execution_authorizer scope_text scope_action scope_risk pre_authorize_intent
    whmcs_mcp_server.Write.Gate.permanently_blocked
    whmcs_mcp_server.Write.Scopes.prod_never_executable whmcs_mcp_server.Write.Gate.is_destructive
    whmcs_mcp_server.Write.Scopes.destructive_write_scopes
    whmcs_mcp_server.Write.Gate.phrase_confirmed whmcs_mcp_server.Write.Gate.allowlist_required
terminate_allowed = refl

replay_denied : pre_authorize_intent credit_request always ≡ denied idempotency_replay
unfolding pre_authorize_intent
replay_denied = refl

pre_authorize_intent_iff_example :
    (pre_authorize_intent terminate_request never ≡ allowed)
    ↔ IsPreAuthorized terminate_request never
pre_authorize_intent_iff_example = pre_authorize_intent_iff terminate_request never

pre_authorize_intent-IsFirstFailure_example :
    IsFirstFailure credit_request always idempotency_replay
pre_authorize_intent-IsFirstFailure_example =
    pre_authorize_intent-IsFirstFailure credit_request always idempotency_replay replay_denied

destructive_needs_phrase_example :
    InOptional (some (scope_text service_terminate ∷ [])) (scope_text service_terminate)
    × ((phrase : String) × (some "I MEAN IT" ≡ some phrase)
        × (phrase ≢ "")
        × (some "I MEAN IT" ≡ some phrase))
unfolding whmcs_mcp_server.Write.Scopes.destructive_write_scopes
destructive_needs_phrase_example =
    destructive_needs_phrase terminate_request never (record { action = refl; risk = refl })
      (unfold scope_text in refl) terminate_allowed

production_sealed_example : default_execution_authorizer sealed_request never ≢ allowed
production_sealed_example =
    production_sealed sealed_request never (record { action = refl; risk = refl }) refl
      (unfold scope_risk in refl) refl refl

credit_not-IsDestructive : ¬ IsDestructive credit_request
unfolding scope_text whmcs_mcp_server.Write.Scopes.destructive_write_scopes
credit_not-IsDestructive d = cc

high_risk_within_caps_example :
    (pos 1000 ≤ℤ pos 2000) × (pos 500 +ℤ pos 1000 ≤ℤ pos 5000) × IsOtherHand credit_request
high_risk_within_caps_example =
    high_risk_within_caps credit_request never (pos 1000) (pos 500) (pos 2000) (pos 5000)
      (unfold scope_risk in refl) credit_not-IsDestructive refl refl credit_allowed

strictness_tightens_example : default_execution_authorizer (loosened credit_request) never ≡ allowed
strictness_tightens_example = strictness_tightens credit_request never credit_allowed
