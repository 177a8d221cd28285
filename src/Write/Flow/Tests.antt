-- ===== src/Write/Flow/Tests.antt =====
-- src/tools/writeFlow.ts: the theorems of the write flow at concrete inputs.
use whmcs_mcp_server.Prelude.{
  ℕ, suc, String, ◌≡◌, ◌≢◌, refl, Bool, true, false, Option, none, some, List, [], ◌∷◌, arith,
}
use whmcs_mcp_server.Json.{end}
use whmcs_mcp_server.Governance.Consumers.{ConsumerProfile, known}
use whmcs_mcp_server.Write.Scopes.{
  WriteScope, client_note_write, billing_credit_add, service_price_restore, client_contact_add,
  scope_action, scope_risk,
}
use whmcs_mcp_server.Write.Types.{WriteIntent, approved, validated, production}
use whmcs_mcp_server.Write.Intents.{IntentStore}
use whmcs_mcp_server.Write.Audit
use whmcs_mcp_server.Write.Audit.{
  AuditEvent, AuditLog, audit_event, intent_executed, intent_drafted,
}
use whmcs_mcp_server.Write.Audit.Reload.{Append, perform_all, open_log-perform_all}
use whmcs_mcp_server.Write.Mapping.Dispatch.{intent_to_whmcs_params}
use whmcs_mcp_server.Write.Mapping.Strict.Table.{IsStrict}
use whmcs_mcp_server.Write.Mapping.Strict.Scopes.{intent_to_whmcs_params-IsStrict}
use whmcs_mcp_server.Write.Flow.Program.{
  M, Effect, pure, Api, Flow, Config, mutated, audited, ◌>>=◌,
}
use whmcs_mcp_server.Write.Flow.Single.{execute_single, error_reply}
use whmcs_mcp_server.Write.Flow.Ends.{Ended}
use whmcs_mcp_server.Write.Flow.Ends.Run.{execute_single-Ended}
use whmcs_mcp_server.Write.Flow.Execute.{RunReply, execute_run}
use whmcs_mcp_server.Write.Flow.Execute.Entitled.{Entitled, execute_run-Entitled}
use whmcs_mcp_server.Write.Flow.Safety.{execute_single-sealed, execute_single-once}
use whmcs_mcp_server.Write.Flow.Handlers.{
  ApproveInput, DraftInput, drafted, draft_write_intent, validate_write_intent,
  approve_write_intent,
}
use whmcs_mcp_server.Write.Flow.Handlers.Approval.{
  Answered, IsDecision, approve_write_intent-Answered,
}
use whmcs_mcp_server.Write.Flow.Handlers.Ceremony.{write_flow-IsDecision}
use whmcs_mcp_server.Write.Flow.Samples.{js, api, config, targets, intent_of, flow_of, note}

execute_single-Ended_example :
    Ended api js config "execution_allowed" note
      (flow_of note)
      (execute_single api js config "execution_allowed" note (flow_of note))
unfolding whmcs_mcp_server.Write.Intents.find whmcs_mcp_server.Prelude.JsMap.get
execute_single-Ended_example =
    execute_single-Ended api js config "execution_allowed" note (flow_of note) refl refl

abbrev credit : WriteIntent
credit = intent_of billing_credit_add approved

execute_single-sealed_example :
    (execute_single api js
      (record config { env = production })
      "execution_allowed"
      credit
      (flow_of credit)).1.effects
    ≡ []
unfolding whmcs_mcp_server.Write.Intents.find whmcs_mcp_server.Prelude.JsMap.get scope_risk
execute_single-sealed_example =
    execute_single-sealed api js (record config { env = production }) "execution_allowed" credit
      (flow_of credit) refl refl refl refl refl refl refl refl

-- The second execution, after the first has left its ledger.
abbrev later : Flow ℕ
later = record (flow_of note) {
  ledger = (execute_single api js config "execution_allowed" note (flow_of note)).1.ledger;
}

abbrev sent : List Effect
sent =
    mutated "AddClientNote" (("userid", none) ∷ ("notes", none) ∷ []) true
    ∷ audited (
        audit_event intent_executed note (some "attempting AddClientNote (risk=low, env=staging)")
          "now")
    ∷ []

first_sends :
    (execute_single api js config "execution_allowed" note (flow_of note)).1.effects ≡ sent
unfolding execute_single whmcs_mcp_server.Write.Flow.Program.◌>>=◌
    whmcs_mcp_server.Write.Gate.default_execution_authorizer
    whmcs_mcp_server.Write.Gate.pre_authorize_intent whmcs_mcp_server.Write.Gate.permanently_blocked
    whmcs_mcp_server.Write.Gate.is_destructive whmcs_mcp_server.Write.Gate.allowlist_required
    whmcs_mcp_server.Write.Gate.check_risk whmcs_mcp_server.Write.Gate.phrase_confirmed
    whmcs_mcp_server.Write.Gate.approved_by whmcs_mcp_server.Write.Flow.Program.is_replay
    whmcs_mcp_server.Write.Flow.Program.pure whmcs_mcp_server.Write.Flow.Program.gets
    whmcs_mcp_server.Write.Flow.Program.move_intent whmcs_mcp_server.Write.Flow.Program.read
    whmcs_mcp_server.Write.Flow.Program.mutate whmcs_mcp_server.Write.Flow.Program.append_event
    whmcs_mcp_server.Write.Flow.Program.append_event_durable
    whmcs_mcp_server.Write.Flow.Program.record_key whmcs_mcp_server.Write.Ledger.seen
    whmcs_mcp_server.Write.Ledger.record_result whmcs_mcp_server.Prelude.JsMap.get
    whmcs_mcp_server.Prelude.JsMap.set whmcs_mcp_server.Write.Scopes.prod_never_executable
    scope_action whmcs_mcp_server.Write.Scopes.prod_never_executable_scopes
    whmcs_mcp_server.Write.Scopes.scope_text whmcs_mcp_server.Write.Scopes.destructive_write_scopes
    scope_risk whmcs_mcp_server.Write.Intents.transition whmcs_mcp_server.Write.Intents.transitions
    whmcs_mcp_server.Write.Intents.persist audit_event whmcs_mcp_server.Write.Audit.append
    whmcs_mcp_server.Write.Audit.append_durable whmcs_mcp_server.Write.Flow.Texts.risk_text
    whmcs_mcp_server.Write.Flow.Texts.env_text whmcs_mcp_server.Write.Flow.Texts.reason_text
    whmcs_mcp_server.Write.Flow.Single.decision_now whmcs_mcp_server.Write.Flow.Single.request_of
    whmcs_mcp_server.Write.Flow.Single.amount_now whmcs_mcp_server.Write.Flow.Single.audited_commit
    whmcs_mcp_server.Write.Flow.Single.commit whmcs_mcp_server.Write.Flow.Single.send
    whmcs_mcp_server.Write.Flow.Single.settle whmcs_mcp_server.Write.Flow.Single.verify
    whmcs_mcp_server.Write.Flow.Single.precheck whmcs_mcp_server.Write.Flow.Single.block
    intent_to_whmcs_params whmcs_mcp_server.Write.Mapping.Clients.map_client_note_params
    whmcs_mcp_server.Write.Flow.Assertions.assert_output
first_sends = refl

execute_single-once_example :
    (execute_single api js config "execution_allowed" note later).1.effects ≡ []
unfolding whmcs_mcp_server.Write.Intents.find whmcs_mcp_server.Prelude.JsMap.get
execute_single-once_example =
    execute_single-once api js config 100 note note "execution_allowed" "execution_allowed"
      (flow_of note) later (λ w. omega arith) refl refl (λ h. cc (first_sends, h)) refl refl refl
      refl (omega arith)

abbrev restore : WriteIntent
restore = intent_of service_price_restore approved

abbrev approver : ConsumerProfile
approver = record {
  id = "approver";
  write_capability = "execution_allowed";
  default_contract = "";
  env_restrictions = [];
  anonymous = false;
  token_sha256 = none;
  allowed_write_scopes = some ("client_note:write" ∷ []);
}

abbrev approval : ApproveInput
approval = record {
  intent_id = "intent-1";
  approver = "Ann";
  is_approved = true;
  user_confirmation_ref = none;
}

abbrev pending : WriteIntent
pending = intent_of client_note_write validated

approve_write_intent-Answered_example :
    Answered
      (known approver)
      approval
      (flow_of pending)
      (approve_write_intent api (λ s. s) (λ n. "1") (known approver) approval (flow_of pending))
unfolding whmcs_mcp_server.Write.Intents.find whmcs_mcp_server.Prelude.JsMap.get
approve_write_intent-Answered_example =
    approve_write_intent-Answered api (λ s. s) (λ n. "1") (known approver) approval
      (flow_of pending) (λ i h. ground (arith, h))

abbrev drafter : ConsumerProfile
drafter = record approver { id = "drafter"; write_capability = "draft_only" }

abbrev note_input : DraftInput
note_input = record {
  scope = client_note_write;
  params = end;
  natural_key = "note";
  projected_effect = "a note";
  preconditions = none;
  confirmation = none;
}

-- The consumer that drafted the note.
abbrev owner : ConsumerProfile
owner = record approver { id = note.consumer_id }

abbrev no_credit : ConsumerProfile → WriteIntent → M ℕ RunReply
no_credit profile intent = pure (RunReply.single_reply (error_reply "not run"))

abbrev no_transfer : WriteIntent → M ℕ RunReply
no_transfer intent = pure (RunReply.single_reply (error_reply "not run"))

run_sends :
    (execute_run api js config no_credit no_transfer
      (known owner)
      "intent-1"
      (flow_of note)).1.effects
    ≡ sent
unfolding execute_single whmcs_mcp_server.Write.Flow.Program.◌>>=◌
    whmcs_mcp_server.Write.Gate.default_execution_authorizer
    whmcs_mcp_server.Write.Gate.pre_authorize_intent whmcs_mcp_server.Write.Gate.permanently_blocked
    whmcs_mcp_server.Write.Gate.is_destructive whmcs_mcp_server.Write.Gate.allowlist_required
    whmcs_mcp_server.Write.Gate.check_risk whmcs_mcp_server.Write.Gate.phrase_confirmed
    whmcs_mcp_server.Write.Gate.approved_by whmcs_mcp_server.Write.Flow.Program.is_replay
    whmcs_mcp_server.Write.Flow.Program.pure whmcs_mcp_server.Write.Flow.Program.gets
    whmcs_mcp_server.Write.Flow.Program.move_intent whmcs_mcp_server.Write.Flow.Program.read
    whmcs_mcp_server.Write.Flow.Program.mutate whmcs_mcp_server.Write.Flow.Program.append_event
    whmcs_mcp_server.Write.Flow.Program.append_event_durable
    whmcs_mcp_server.Write.Flow.Program.record_key whmcs_mcp_server.Write.Ledger.seen
    whmcs_mcp_server.Write.Ledger.record_result whmcs_mcp_server.Prelude.JsMap.get
    whmcs_mcp_server.Prelude.JsMap.set whmcs_mcp_server.Write.Scopes.prod_never_executable
    scope_action whmcs_mcp_server.Write.Scopes.prod_never_executable_scopes
    whmcs_mcp_server.Write.Scopes.scope_text whmcs_mcp_server.Write.Scopes.destructive_write_scopes
    scope_risk whmcs_mcp_server.Write.Intents.transition whmcs_mcp_server.Write.Intents.transitions
    whmcs_mcp_server.Write.Intents.persist audit_event whmcs_mcp_server.Write.Audit.append
    whmcs_mcp_server.Write.Audit.append_durable whmcs_mcp_server.Write.Flow.Texts.risk_text
    whmcs_mcp_server.Write.Flow.Texts.env_text whmcs_mcp_server.Write.Flow.Texts.reason_text
    whmcs_mcp_server.Write.Flow.Single.decision_now whmcs_mcp_server.Write.Flow.Single.request_of
    whmcs_mcp_server.Write.Flow.Single.amount_now whmcs_mcp_server.Write.Flow.Single.audited_commit
    whmcs_mcp_server.Write.Flow.Single.commit whmcs_mcp_server.Write.Flow.Single.send
    whmcs_mcp_server.Write.Flow.Single.settle whmcs_mcp_server.Write.Flow.Single.verify
    whmcs_mcp_server.Write.Flow.Single.precheck whmcs_mcp_server.Write.Flow.Single.block
    intent_to_whmcs_params whmcs_mcp_server.Write.Mapping.Clients.map_client_note_params
    whmcs_mcp_server.Write.Flow.Assertions.assert_output execute_run
    whmcs_mcp_server.Write.Intents.find
    whmcs_mcp_server.Governance.Consumers.assert_write_scope_allowed
run_sends = refl

execute_run-Entitled_example :
    Entitled api js config no_credit no_transfer (known owner) "intent-1" (flow_of note)
unfolding whmcs_mcp_server.Write.Intents.find whmcs_mcp_server.Prelude.JsMap.get
execute_run-Entitled_example =
    execute_run-Entitled api js config no_credit no_transfer (known owner) "intent-1" (flow_of note)
      (λ i h. ground (arith, h)) (λ h. cc (run_sends, h))

-- A note that another consumer drafts and that Ann's consumer approves.
write_flow-IsDecision_example :
    IsDecision api
      (λ s. s)
      (λ n. "1")
      approver
      approval
      (flow_of note)
      (drafted (λ s. s) (λ n. "1") "intent-1" "drafter" note_input 100)
      ((draft_write_intent api (λ s. s) (λ n. "1") (known drafter) note_input "intent-1" >>= λ _.
          (validate_write_intent api (λ s. s) (λ n. "1") (known drafter) "intent-1" (λ i. true)
            >>= λ _. approve_write_intent api (λ s. s) (λ n. "1") (known approver) approval))
        (flow_of note))
unfolding whmcs_mcp_server.Governance.Consumers.assert_write_scope_allowed
    whmcs_mcp_server.Write.Scopes.scope_text whmcs_mcp_server.Write.Flow.Handlers.may_not_approve
write_flow-IsDecision_example =
    write_flow-IsDecision api (λ s. s) (λ n. "1") drafter approver note_input "intent-1" (λ i. true)
      approval (flow_of note) refl refl refl refl refl

abbrev event : AuditEvent
event = audit_event intent_drafted note none "now"

abbrev calls : List Append
calls =
    record { written = true; durably = false; event = event }
    ∷ record { written = false; durably = true; event = event }
    ∷ record { written = true; durably = true; event = event }
    ∷ []

open_log-perform_all_example :
    (Audit.open_log (perform_all calls (record { events = []; file = some [] })).file).events
    ≡ event ∷ event ∷ []
unfolding Audit.open_log perform_all whmcs_mcp_server.Write.Audit.load_lines
open_log-perform_all_example =
    open_log-perform_all calls (record { events = []; file = some [] }) [] refl

intent_to_whmcs_params-IsStrict_example :
    IsStrict js targets client_contact_add
      (intent_to_whmcs_params js client_contact_add targets none)
intent_to_whmcs_params-IsStrict_example =
    intent_to_whmcs_params-IsStrict js client_contact_add targets none
