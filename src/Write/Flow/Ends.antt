-- ===== src/Write/Flow/Ends.antt =====
-- src/tools/writeFlow.ts: how the execution of one WHMCS call can end.
pub mod Calls
pub mod Run
use whmcs_mcp_server.Prelude.{
  ℕ, String, ◌≡◌, refl, sym, ap, subst, ◌∙◌, Bool, true, false, Option, none, some, List, [], ◌∷◌,
  ◌⊎◌, inl, inr, arith, if◌then◌else◌,
}
use whmcs_mcp_server.Json.{Json, Fields, property}
use whmcs_mcp_server.Write.Types.{
  WriteIntent, WriteIntentState, approved, executed, failed, verified, execution_blocked,
  ExecutionDecision, allowed, denied, ExecutionDeniedReason, precondition_mismatch,
  audit_write_failed, AmountContext,
}
use whmcs_mcp_server.Write.Gate.{is_high}
use whmcs_mcp_server.Write.Intents.{find, transitions}
use whmcs_mcp_server.Write.Ledger.{IdempotencyLedger, record_result}
use whmcs_mcp_server.Write.DayAmounts
use whmcs_mcp_server.Write.DayAmounts.{DayAmountsStore}
use whmcs_mcp_server.Write.Audit.{
  AuditEvent, AuditLog, audit_event, intent_executed, intent_execution_blocked, intent_failed,
  intent_verified, append_durable,
}
use whmcs_mcp_server.Write.Audit.{is_written}
use whmcs_mcp_server.Write.Flow.Products.{first_product, is_closed, has_expected_domain}
use whmcs_mcp_server.Write.Mapping.Values.{Js, Output}
use whmcs_mcp_server.Write.Mapping.Services.{MappingError, Mapping, mapped, refused}
use whmcs_mcp_server.Write.Mapping.Dispatch.{intent_to_whmcs_params}
use whmcs_mcp_server.Write.Flow.Texts.{reason_text, risk_text, env_text}
use whmcs_mcp_server.Write.Flow.Program.{
  Api, Flow, M, Outcome, ok, Config, Effect, audited, mutated, returns, pure, gets, ◌>>=◌, ◌>>◌,
  continue, move_intent, read, mutate, append_event, append_event_durable, durable_outcome,
  add_amount, record_key,
}
use whmcs_mcp_server.Write.Flow.Assertions.{assert_output}
use whmcs_mcp_server.Write.Flow.Steps.{
  Same, Calm, Moved, with_state, after-Calm, after_move, bind_ok, pure-Calm, bind-Calm, read-Calm,
  append_event-Calm, if-Calm,
}
use whmcs_mcp_server.Write.Flow.Single.{
  read_back, returned, service_query, is_domain_rename, Reply, tool_reply, blocked_result,
  failed_result, executed_result, executing_mark, amount_now, decision_now, block, precheck,
  precheck_domain_rename, check_response, send, send_unless, verify, verify_by_action, tally,
  settle, commit, audited_commit, attempt_text, refused_note, unless_mismatch, decide,
  execute_single, mapping_error_text,
}

-- What is known of a state: the intent is stored in a state, and the ledger, the daily amounts and
-- the effects are these.
pub record Facts {W : Type 0} (intent : WriteIntent) (s : WriteIntentState)
    (ledger : IdempotencyLedger) (days : DayAmountsStore) (effects : List Effect) (st : Flow W)
    : Type 0 where
  pub stored : find intent.intent_id st.store ≡ some (with_state intent s)
  pub ledger_is : st.ledger ≡ ledger
  pub days_are : st.day_amounts ≡ days
  pub effects_are : st.effects ≡ effects

module _ {W : Type 0} {intent : WriteIntent} {s : WriteIntentState} {l : IdempotencyLedger}
    {d : DayAmountsStore} {es : List Effect} where
  pub Facts-Same :
      {st st' : Flow W} → Facts intent s l d es st → Same st st' → Facts intent s l d es st'
  Facts-Same f same = record {
    stored = ap (find intent.intent_id) same.store ∙ f.stored;
    ledger_is = same.ledger ∙ f.ledger_is;
    days_are = same.day_amounts ∙ f.days_are;
    effects_are = same.effects ∙ f.effects_are;
  }

  pub Facts-Moved :
      {st st' : Flow W} {next : WriteIntentState}
      → Facts intent s l d es st
      → Moved (with_state intent s) intent.intent_id next st st'
      → Facts intent next l d es st'
  Facts-Moved f m = record {
    stored = m.stored;
    ledger_is = m.ledger ∙ f.ledger_is;
    days_are = m.day_amounts ∙ f.days_are;
    effects_are = m.effects ∙ f.effects_are;
  }

-- Whether WHMCS was called, and whether the call returned.
pub data Sending : Type 0 where
  not_sent : Sending
  sent_and : Bool → Sending

abbrev pub HasFailed : Sending → Type 0
HasFailed not_sent = Unit
HasFailed (sent_and returned) = returned ≡ false

module _ {W : Type 0} (api : Api W) (js : Js) (cfg : Config) where
  abbrev pub IsProductAsExpected : WriteIntent → Option Fields → Type 0
  IsProductAsExpected intent none = ⊥
  IsProductAsExpected intent (some p) =
      (is_closed p ≡ false)
      × (has_expected_domain js (property "expected_old_domain" intent.params) p ≡ true)

  -- The read returned a service that is not closed and has the domain that the intent expects.
  abbrev pub IsAsExpected : WriteIntent → Option Fields → Type 0
  IsAsExpected intent none = ⊥
  IsAsExpected intent (some resp) = IsProductAsExpected intent (first_product resp)

  -- The precondition, which only the renaming of a domain has.
  abbrev pub Passes : WriteIntent → Flow W → Type 0
  Passes intent st =
      is_domain_rename intent.scope ≡ true
      → IsAsExpected intent
          (api.read "GetClientsProducts" (service_query api js cfg intent) st.whmcs).0

  -- WHMCS after the read of the precondition.
  abbrev pub checked : WriteIntent → Flow W → W
  checked intent st =
      if is_domain_rename intent.scope
      then (api.read "GetClientsProducts" (service_query api js cfg intent) st.whmcs).1
      else st.whmcs

  -- The audit event of an attempt, and whether its line is written, right after the precondition.
  abbrev pub attempt_of : WriteIntent → Flow W → AuditEvent
  attempt_of intent st =
      audit_event intent_executed intent (some (attempt_text api js cfg intent))
        (api.iso (api.clock (checked intent st)))

  abbrev pub is_durable : WriteIntent → Flow W → Bool
  is_durable intent st =
      is_written (api.write_line (attempt_of intent st) (checked intent st)).0 st.audit.file

  -- Why an execution is blocked: the gate denies it; or the gate allows it and the precondition
  -- fails; or both hold and the attempt's audit line is not written.
  abbrev pub IsCause : String → WriteIntent → Flow W → ExecutionDeniedReason → Type 0
  IsCause capability intent st reason =
      (decision_now api js cfg capability intent st ≡ denied reason)
      ⊎ ((decision_now api js cfg capability intent st ≡ allowed)
          × (((reason ≡ precondition_mismatch) × (¬ Passes intent st))
              ⊎ ((reason ≡ audit_write_failed)
                  × Passes intent st
                  × (is_durable intent st ≡ false))))

  -- The durable line of the attempt, before anything is sent.
  abbrev pub IsAttempt : WriteIntent → AuditEvent → Type 0
  IsAttempt intent e =
      (at : String) × (e
        ≡ audit_event intent_executed intent (some (attempt_text api js cfg intent)) at)

  abbrev pub whmcs_params : WriteIntent → Mapping
  whmcs_params intent =
      intent_to_whmcs_params js intent.scope intent.params (some intent.idempotency_key)

  -- Nothing can be sent: the mapper throws, or its output fails the assertion of the scope.
  abbrev pub IsUnsendable : WriteIntent → Type 0
  IsUnsendable intent =
      ((error : MappingError) × (whmcs_params intent ≡ refused error))
      ⊎ ((out : Output) × (message : String) × (whmcs_params intent ≡ mapped out)
          × (assert_output intent.scope out ≡ some message))

  -- The effects of an attempt: its durable line, then one call, of the mapped parameters, unless
  -- nothing can be sent.
  pub data Trail (intent : WriteIntent) (es : List Effect) : Sending → List Effect → Type 0 where
    unsent :
        (e : AuditEvent)
        → IsAttempt intent e
        → IsUnsendable intent
        → Trail intent es not_sent (audited e ∷ es)
    sent :
        (e : AuditEvent) (out : Output) (returned : Bool)
        → IsAttempt intent e
        → whmcs_params intent ≡ mapped out
        → assert_output intent.scope out ≡ none
        → Trail intent es (sent_and returned) (mutated intent.action out returned ∷ audited e ∷ es)

  -- A read after the call bears the execution out: the service has the new domain, or the action
  -- that the intent names for this returns.
  abbrev pub IsVerified : WriteIntent → Type 0
  IsVerified intent =
      ((is_domain_rename intent.scope ≡ true)
        × ((w : W) × (read_back api js cfg intent
                (api.read "GetClientsProducts" (service_query api js cfg intent) w).0
              ≡ true)))
      ⊎ ((is_domain_rename intent.scope ≡ false)
          × ((action : String) × (property "verifyAction" intent.preconditions
                ≡ some (Json.text action))
              × ((w : W) × (returned api js cfg (api.read action [] w).0 ≡ true))))

  abbrev pub tallied :
      WriteIntent → Option AmountContext → String → DayAmountsStore → DayAmountsStore
  tallied intent none day d = d
  tallied intent (some amt) day d =
      if is_high intent.risk then DayAmounts.add intent.action amt.amount day d else d

  -- The ways the execution of an intent from a state can end: never by an exception.
  pub data Ended (capability : String) (intent : WriteIntent) (st : Flow W)
      : Outcome Reply × Flow W → Type 0 where
    was_blocked :
        (reason : ExecutionDeniedReason) (note : Option String) (st' : Flow W)
        → IsCause capability intent st reason
        → Facts intent execution_blocked st.ledger st.day_amounts st.effects st'
        → Ended capability intent st (
          ok (tool_reply (blocked_result (with_state intent execution_blocked) reason note)),
          st',
        )
    was_failed :
        (message : String) (sending : Sending) (effects : List Effect) (w : W) (st' : Flow W)
        → decision_now api js cfg capability intent st ≡ allowed
        → Passes intent st
        → is_durable intent st ≡ true
        → HasFailed sending
        → Trail intent st.effects sending effects
        → Facts intent failed
            (record_result intent.idempotency_key executing_mark (api.clock w) st.ledger)
            st.day_amounts
            effects
            st'
        → Ended capability intent st
            (ok (tool_reply (failed_result (with_state intent failed) message)), st')
    was_executed :
        (is_verified : Bool) (effects : List Effect) (w : W) (day : String) (st' : Flow W)
        → decision_now api js cfg capability intent st ≡ allowed
        → Passes intent st
        → is_durable intent st ≡ true
        → Trail intent st.effects (sent_and true) effects
        → (is_verified ≡ true → IsVerified intent)
        → Facts intent
            (if is_verified then verified else executed)
            (record_result intent.idempotency_key executing_mark (api.clock w) st.ledger)
            (tallied intent (amount_now api js cfg intent st) day st.day_amounts)
            effects
            st'
        → Ended capability intent st (
          ok (
              tool_reply (
                executed_result
                  (with_state intent (if is_verified then verified else executed))
                  is_verified)),
          st',
        )
