-- ===== src/Write/Flow/Ends/Run.antt =====
-- src/tools/writeFlow.ts: the execution of one WHMCS call, followed to its end.
use whmcs_mcp_server.Prelude.{
  ◌++◌, [], String, ◌≡◌, refl, sym, ap, subst, ◌∙◌, Bool, true, false, Option, none, some, List,
  ◌∷◌, inl, inr, if◌then◌else◌,
}
use whmcs_mcp_server.Write.Types.{
  WriteIntent, approved, executed, failed, verified, execution_blocked, ExecutionDecision, allowed,
  denied, ExecutionDeniedReason, audit_write_failed, AmountContext,
}
use whmcs_mcp_server.Write.Intents.{find, transitions}
use whmcs_mcp_server.Write.Ledger.{IdempotencyLedger, record_result}
use whmcs_mcp_server.Write.Audit.{
  AuditEvent, AuditLog, intent_executed, intent_execution_blocked, intent_failed, intent_verified,
  append_durable, add_line,
}
use whmcs_mcp_server.Write.Mapping.Values.{Js}
use whmcs_mcp_server.Write.Flow.Texts.{reason_text, risk_text, env_text}
use whmcs_mcp_server.Write.Flow.Program.{
  Api, Flow, M, Outcome, Config, Effect, audited, pure, gets, ◌>>=◌, ◌>>◌, continue, move_intent,
  append_event, append_event_durable, durable_outcome, record_key,
}
use whmcs_mcp_server.Write.Flow.Steps.{
  with_state, after-Calm, after_move, bind_ok, append_event-Calm,
}
use whmcs_mcp_server.Write.Flow.Single.{
  Reply, tool_reply, executed_result, executing_mark, amount_now, decision_now, block, send, verify,
  returned, tally, settle, commit, audited_commit, refused_note, unless_mismatch, decide,
  execute_single,
}
use whmcs_mcp_server.Write.Flow.Ends.{
  IsVerified, Facts, Facts-Same, Facts-Moved, sent_and, Passes, checked, attempt_of, is_durable,
  IsCause, IsAttempt, whmcs_params, Trail, tallied, Ended, was_blocked, was_failed, was_executed,
}
use whmcs_mcp_server.Write.Flow.Ends.Calls.{
  mismatch_now, precheck-read, mismatch_now-none, mismatch_now-some, verify-Calm, verify-IsVerified,
  SentOr, send-SentOr, tally-Facts,
}

module _ {W : Type 0} (api : Api W) (js : Js) (cfg : Config) where
  block-Ended :
      (capability : String) (intent : WriteIntent) (st : Flow W) (reason : ExecutionDeniedReason)
      (note : Option String) (st₁ : Flow W)
      → IsCause api js cfg capability intent st reason
      → Facts intent approved st.ledger st.day_amounts st.effects st₁
      → Ended api js cfg capability intent st (block api js cfg intent reason note st₁)
  unfolding block pure reason_text transitions
  block-Ended capability intent st reason note st₁ cause f =
      let Q = Ended api js cfg capability intent st in
      after_move Q intent.intent_id execution_blocked _ st₁ (with_state intent approved) f.stored
        refl
        (λ st₂ moves.
          after-Calm Q (append_event api intent_execution_blocked _ _) _ st₂
            (append_event-Calm api _ _ _)
            (λ a st₃ same.
              was_blocked reason note st₃ cause (Facts-Same (Facts-Moved f moves) same)))

  module _ (capability : String) (intent : WriteIntent) (st : Flow W)
      (is_allowed : decision_now api js cfg capability intent st ≡ allowed)
      (passes : Passes api js cfg intent st)
      (durable : is_durable api js cfg intent st ≡ true) where
    abbrev Q : Outcome Reply × Flow W → Type 0
    Q = Ended api js cfg capability intent st

    abbrev marked : W → IdempotencyLedger
    marked w = record_result intent.idempotency_key executing_mark (api.clock w) st.ledger

    abbrev amount : Option AmountContext
    amount = amount_now api js cfg intent st

    -- After the read-back.
    abbrev finish : Bool → M W Reply
    finish is_verified = do
      final ←
          if is_verified
          then move_intent intent.intent_id verified
          else pure (with_state intent executed)
      append_event api (if is_verified then intent_verified else intent_executed) final (
          some (
            if is_verified
            then "post-action verified"
            else "executed; post-action verification unavailable"))
      pure (tool_reply (executed_result final is_verified))

    finish-Ended :
        (is_verified : Bool) (effects : List Effect) (w : W) (day : String) (st₁ : Flow W)
        → Trail api js cfg intent st.effects (sent_and true) effects
        → (is_verified ≡ true → IsVerified api js cfg intent)
        → Facts intent executed
            (marked w)
            (tallied api js cfg intent amount day st.day_amounts)
            effects
            st₁
        → Q (finish is_verified st₁)
    unfolding transitions pure
    finish-Ended true effects w day st₁ t v f =
        after_move Q intent.intent_id verified _ st₁ (with_state intent executed) f.stored refl
          (λ st₂ moves.
            after-Calm Q (append_event api intent_verified _ _) _ st₂ (append_event-Calm api _ _ _)
              (λ a st₃ same.
                was_executed true effects w day st₃ is_allowed passes durable t v
                  (Facts-Same (Facts-Moved f moves) same)))
    finish-Ended false effects w day st₁ t v f =
        subst Q (sym (bind_ok (pure (with_state intent executed)) _ st₁ _ refl)) (
          after-Calm Q (append_event api intent_executed _ _) _ st₁ (append_event-Calm api _ _ _)
            (λ a st₂ same.
              was_executed false effects w day st₂ is_allowed passes durable t v
                (Facts-Same f same)))

    settle-Ended :
        (thrown : Option String) (w : W) (st₁ : Flow W)
        → SentOr api js cfg intent (marked w) st.day_amounts st.effects st₁ thrown
        → Q (settle api js cfg intent (with_state intent executed) amount thrown st₁)
    unfolding settle transitions pure
    settle-Ended (some message) w st₁ (sending, effects, bad, t, f) =
        after_move Q intent.intent_id failed _ st₁ (with_state intent executed) f.stored refl
          (λ st₂ moves.
            after-Calm Q (append_event api intent_failed _ _) _ st₂ (append_event-Calm api _ _ _)
              (λ a st₃ same.
                was_failed message sending effects w st₃ is_allowed passes durable bad t
                  (Facts-Same (Facts-Moved f moves) same)))
    settle-Ended none w st₁ (effects, t, f) =
        let (returned, (day, g)) =
          tally-Facts api js cfg intent (marked w) st.day_amounts effects amount st₁ f in
        subst Q (sym (bind_ok (tally api js cfg intent amount) _ st₁ tt returned)) (
          let calm = verify-Calm api js cfg intent in
          let st₂ = (tally api js cfg intent amount st₁).1 in
          let (v, answer) = calm.returns st₂ in
          subst Q (sym (bind_ok (verify api js cfg intent) finish st₂ v answer)) (
            finish-Ended v effects w day (verify api js cfg intent st₂).1 t
              (λ k. verify-IsVerified api js cfg intent st₂ (answer ∙ ap Outcome.ok k))
              (Facts-Same g (calm.same st₂))))

    commit-Ended :
        (e : AuditEvent) (st₁ : Flow W)
        → IsAttempt api js cfg intent e
        → Facts intent approved st.ledger st.day_amounts (audited e ∷ st.effects) st₁
        → Q (commit api js cfg intent amount st₁)
    unfolding commit record_key transitions
    commit-Ended e st₁ a f =
        let now = api.clock st₁.whmcs in
        let mark = record_result intent.idempotency_key executing_mark now in
        subst Q (sym (bind_ok (record_key api intent.idempotency_key executing_mark) _ st₁ tt refl))
          (after_move Q intent.intent_id executed _ (record st₁ { ledger = mark st₁.ledger })
            (with_state intent approved) f.stored refl
            (λ st₂ moves.
              let g =
                Facts-Moved
                  (record {
                    stored = f.stored;
                    ledger_is = ap mark f.ledger_is;
                    days_are = f.days_are;
                    effects_are = f.effects_are;
                  })
                  moves in
              let (r, returned, s) =
                send-SentOr api js cfg intent (mark st.ledger) st.day_amounts st.effects st₂ e
                  (whmcs_params api js cfg intent) refl a g in
              subst Q
                (sym (
                  bind_ok (send api js cfg intent (whmcs_params api js cfg intent)) _ st₂ r
                    returned))
                (settle-Ended r st₁.whmcs _ s)))

  audited_commit-Ended :
      (capability : String) (intent : WriteIntent) (st : Flow W)
      → decision_now api js cfg capability intent st ≡ allowed
      → Passes api js cfg intent st
      → Facts intent approved st.ledger st.day_amounts st.effects st
      → Ended api js cfg capability intent st (
          audited_commit api js cfg intent
            (amount_now api js cfg intent st)
            (record st { whmcs = checked api js cfg intent st }))
  unfolding audited_commit append_event_durable append_durable ◌>>=◌ risk_text env_text
  audited_commit-Ended capability intent st is_allowed passes f =
      go (is_durable api js cfg intent st) refl
    where
      e : AuditEvent
      e = attempt_of api js cfg intent st

      w : W
      w = checked api js cfg intent st

      after : Flow W
      after = record st { whmcs = (api.write_line e w).1 }

      log : Bool → Option AuditLog
      log b =
          if b
          then some (record { events = st.audit.events ++ e ∷ []; file = add_line e st.audit.file })
          else none

      go :
          (b : Bool)
          → is_durable api js cfg intent st ≡ b
          → Ended api js cfg capability intent st (
              continue
                (durable_outcome (log b) e after).0
                (λ done.
                  if done
                  then commit api js cfg intent (amount_now api js cfg intent st)
                  else block api js cfg intent audit_write_failed (some (refused_note api js cfg)))
                (durable_outcome (log b) e after).1)
      go false d =
          block-Ended capability intent st audit_write_failed _ after
            (inr (is_allowed, inr (refl, passes, d)))
            (record {
              stored = f.stored;
              ledger_is = f.ledger_is;
              days_are = f.days_are;
              effects_are = f.effects_are;
            })
      go true d =
          commit-Ended capability intent st is_allowed passes d e _ (api.iso (api.clock w), refl)
            (record {
              stored = f.stored;
              ledger_is = f.ledger_is;
              days_are = f.days_are;
              effects_are = ap (λ xs. audited e ∷ xs) f.effects_are;
            })

  unless_mismatch-Ended :
      (capability : String) (intent : WriteIntent) (st : Flow W)
      (problem : Option ExecutionDeniedReason)
      → decision_now api js cfg capability intent st ≡ allowed
      → mismatch_now api js cfg intent st ≡ problem
      → Facts intent approved st.ledger st.day_amounts st.effects st
      → Ended api js cfg capability intent st (
          unless_mismatch api js cfg intent
            (amount_now api js cfg intent st)
            problem
            (record st { whmcs = checked api js cfg intent st }))
  unless_mismatch-Ended capability intent st none h p f =
      audited_commit-Ended capability intent st h (mismatch_now-none api js cfg intent st p) f
  unless_mismatch-Ended capability intent st (some reason) h p f =
      let (is_mismatch, fails) = mismatch_now-some api js cfg intent st reason p in
      block-Ended capability intent st reason none _ (inr (h, inl (is_mismatch, fails))) (record {
        stored = f.stored;
        ledger_is = f.ledger_is;
        days_are = f.days_are;
        effects_are = f.effects_are;
      })

  decide-Ended :
      (capability : String) (intent : WriteIntent) (st : Flow W) (decision : ExecutionDecision)
      → decision_now api js cfg capability intent st ≡ decision
      → Facts intent approved st.ledger st.day_amounts st.effects st
      → Ended api js cfg capability intent st
          (decide api js cfg intent (amount_now api js cfg intent st) decision st)
  unfolding ◌>>=◌
  decide-Ended capability intent st (denied reason) h f =
      block-Ended capability intent st reason none st (inl h) f
  decide-Ended capability intent st allowed h f =
      subst
        (λ p.
          Ended api js cfg capability intent st (
            continue p.0 (unless_mismatch api js cfg intent (amount_now api js cfg intent st)) p.1))
        (sym (precheck-read api js cfg intent st))
        (unless_mismatch-Ended capability intent st (mismatch_now api js cfg intent st) h refl f)

  -- An approved intent that is stored is executed as one WHMCS call. It never throws. It is blocked
  -- exactly where the gate denies it; or, once the gate allows it, where it renames a domain and
  -- the service that is read is not as expected; or, with both passed, where the durable audit line
  -- of the attempt cannot be written. Then nothing was sent, the ledger and the daily amounts are
  -- as before, and the intent is left in the final state `execution_blocked`. Otherwise the
  -- attempt's durable line stands before the call, the key is recorded, and one call is made, of
  -- the intent's action with the mapped parameters, unless the mapper throws or its output fails
  -- the assertion of the scope. The intent is reported as executed only if the call was made and
  -- returned; then the daily amount grows by the amount of a high-risk intent. It is reported as
  -- verified only if a read bears it out. What is reported is what the store holds.
  pub execute_single-Ended :
      (capability : String) (intent : WriteIntent) (st : Flow W)
      → find intent.intent_id st.store ≡ some intent
      → intent.state ≡ approved
      → Ended api js cfg capability intent st (execute_single api js cfg capability intent st)
  unfolding execute_single gets ◌>>=◌
  execute_single-Ended capability intent st h is_approved =
      decide-Ended capability intent st (decision_now api js cfg capability intent st) refl
        (record {
          stored = h ∙ ap (λ s. some (with_state intent s)) is_approved;
          ledger_is = refl;
          days_are = refl;
          effects_are = refl;
        })
