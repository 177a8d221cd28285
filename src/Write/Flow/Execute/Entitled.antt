-- ===== src/Write/Flow/Execute/Entitled.antt =====
-- src/tools/writeFlow.ts: who can have something sent.
use whmcs_mcp_server.Prelude.{
  arith, ◌⊎◌, inl, inr, String, ◌≡◌, ◌≢◌, refl, sym, ap, subst, ◌∙◌, Bool, true, false, Option,
  none, some, if◌then◌else◌, str_eq,
}
use whmcs_mcp_server.Prelude.JsMap
use whmcs_mcp_server.Governance.Consumers.{
  ConsumerProfile, ConsumerResolution, known, unknown, WriteScopeAssertion, granted,
  scope_not_allowed, write_capability_false, assert_write_scope_allowed,
}
use whmcs_mcp_server.Write.Scopes.{
  WriteScope, scope_text, billing_credit_transfer, service_price_restore, billing_invoice_reassign,
  service_transfer_owner,
}
use whmcs_mcp_server.Write.Types.{
  WriteIntent, WriteIntentState, approved, execution_blocked, ExecutionDecision, allowed, denied,
  ExecutionDeniedReason, HumanApprovalRecord, self_approval_forbidden, human_approval_required,
  intent_not_approved,
}
use whmcs_mcp_server.Write.Intents.{find, transitions, includes_state}
use whmcs_mcp_server.Write.Gate.{is_approved}
use whmcs_mcp_server.Write.Mapping.Values.{Js}
use whmcs_mcp_server.Write.Flow.Program.{
  Api, Flow, M, Outcome, ok, threw, Config, pure, gets, ◌>>=◌, append_event, continue,
}
use whmcs_mcp_server.Write.Audit.{intent_execution_blocked}
use whmcs_mcp_server.Write.Flow.Single.{
  Reply, tool_reply, blocked_result, block, decision_now, execute_single,
}
use whmcs_mcp_server.Write.Flow.Steps.{after_move, after-Calm, append_event-Calm}
use whmcs_mcp_server.Write.Flow.Safety.{unless_allowed}
use whmcs_mcp_server.Write.Flow.Execute.{
  RunReply, single_reply, as_single, fail_with, pre_decision, unless_unapproved, unless_denied,
  guarded_batch, run_scope, run_granted, run_own, run_found, report_unapproved, execute_run,
}

-- The scopes that are executed as one WHMCS call.
abbrev pub is_one_call : WriteScope → Bool
is_one_call billing_credit_transfer = false
is_one_call service_price_restore = false
is_one_call billing_invoice_reassign = false
is_one_call service_transfer_owner = false
is_one_call _ = true

module _ {W : Type 0} (api : Api W) (js : Js) (cfg : Config)
    (credit_transfer : ConsumerProfile → WriteIntent → M W RunReply)
    (owner_transfer : WriteIntent → M W RunReply) where
  -- What lets an intent through: it is a credit transfer, which is left to its executor; or a
  -- batch, which steps 1 to 7 of the gate allow and a consumer other than the drafter has approved;
  -- or one call of another scope, which the whole gate allows.
  pub data Cleared (profile : ConsumerProfile) (intent : WriteIntent) (st : Flow W) : Type 0 where
    by_credit : intent.scope ≡ billing_credit_transfer → Cleared profile intent st
    by_batch :
        (approval : HumanApprovalRecord)
        → pre_decision api js cfg credit_transfer owner_transfer profile.write_capability intent st
          ≡ allowed
        → JsMap.get intent.intent_id st.approvals ≡ some approval
        → str_eq approval.approver_consumer_id intent.consumer_id ≡ false
        → (intent.scope ≡ service_price_restore) ⊎ (intent.scope ≡ service_transfer_owner)
        → Cleared profile intent st
    by_gate :
        decision_now api js cfg profile.write_capability intent st ≡ allowed
        → is_one_call intent.scope ≡ true
        → Cleared profile intent st

  -- The caller drafted the intent, which is approved; its scope is still the caller's.
  pub record Entitled (who : ConsumerResolution) (id : String) (st : Flow W) : Type 0 where
    pub profile : ConsumerProfile
    pub intent : WriteIntent
    pub is_known : who ≡ known profile
    pub stored : find id st.store ≡ some intent
    pub own : str_eq intent.consumer_id profile.id ≡ true
    pub is_approved : intent.state ≡ approved
    pub is_granted : assert_write_scope_allowed profile (scope_text intent.scope) ≡ granted
    pub cleared : Cleared profile intent st

  -- If a run changes the effects, then `A` holds.
  abbrev OnlyIf : Type 0 → Flow W → Outcome RunReply × Flow W → Type 0
  OnlyIf A st p = p.1.effects ≢ st.effects → A

  effects-as_single :
      (m : M W Reply) (st : Flow W)
      → (as_single api js cfg credit_transfer owner_transfer m st).1 ≡ (m st).1
  unfolding ◌>>=◌ pure
  effects-as_single m st = go (m st).0 (m st).1
    where
      go :
          (o : Outcome Reply) (s : Flow W)
          → (continue o (λ reply. pure (single_reply reply)) s).1 ≡ s
      go (ok reply) s = refl
      go (threw e) s = refl

  -- Something that is blocked has sent nothing.
  block-quiet :
      (A : Type 0) (intent : WriteIntent) (reason : ExecutionDeniedReason) (st : Flow W)
      → find intent.intent_id st.store ≡ some intent
      → intent.state ≡ approved
      → OnlyIf A st (
          as_single api js cfg credit_transfer owner_transfer
            (block api js cfg intent reason none)
            st)
  unfolding block transitions
  block-quiet A intent reason st h a =
      subst (λ s. s.effects ≢ st.effects → A)
        (sym (effects-as_single (block api js cfg intent reason none) st))
        (λ n. absurd (
          n (
            after_move (λ p. p.1.effects ≡ st.effects) intent.intent_id execution_blocked _ st
              intent h (ap (λ s. includes_state (transitions s) execution_blocked) a)
              (λ st₁ m.
                after-Calm (λ p. p.1.effects ≡ st.effects) (append_event api _ _ _) _ st₁
                  (append_event-Calm api _ _ _) (λ u st₂ same. same.effects ∙ m.effects)))))

  guarded_batch-only :
      (profile : ConsumerProfile) (intent : WriteIntent) (body : M W RunReply) (st : Flow W)
      → find intent.intent_id st.store ≡ some intent
      → intent.state ≡ approved
      → (intent.scope ≡ service_price_restore) ⊎ (intent.scope ≡ service_transfer_owner)
      → OnlyIf (Cleared profile intent st) st (
          guarded_batch api js cfg credit_transfer owner_transfer profile.write_capability intent
            body st)
  unfolding guarded_batch gets ◌>>=◌
  guarded_batch-only profile intent body st h a other =
      decided
        (pre_decision api js cfg credit_transfer owner_transfer profile.write_capability intent st)
        refl
    where
      distinct :
          (approval : HumanApprovalRecord) (b : Bool)
          → str_eq approval.approver_consumer_id intent.consumer_id ≡ b
          → pre_decision api js cfg credit_transfer owner_transfer profile.write_capability intent
              st
            ≡ allowed
          → JsMap.get intent.intent_id st.approvals ≡ some approval
          → OnlyIf (Cleared profile intent st) st (
              (if b
                  then as_single api js cfg credit_transfer owner_transfer
                      (block api js cfg intent self_approval_forbidden none)
                  else body)
                st)
      distinct approval true k pre got =
          block-quiet (Cleared profile intent st) intent self_approval_forbidden st h a
      distinct approval false k pre got = λ n. by_batch approval pre got k other

      recorded :
          (o : Option HumanApprovalRecord)
          → JsMap.get intent.intent_id st.approvals ≡ o
          → pre_decision api js cfg credit_transfer owner_transfer profile.write_capability intent
              st
            ≡ allowed
          → OnlyIf
              (Cleared profile intent st)
              st
              (unless_unapproved api js cfg credit_transfer owner_transfer intent body o st)
      recorded none got pre =
          block-quiet (Cleared profile intent st) intent human_approval_required st h a
      recorded (some approval) got pre =
          distinct approval (str_eq approval.approver_consumer_id intent.consumer_id) refl pre got

      decided :
          (d : ExecutionDecision)
          → pre_decision api js cfg credit_transfer owner_transfer profile.write_capability intent
              st
            ≡ d
          → OnlyIf
              (Cleared profile intent st)
              st
              (unless_denied api js cfg credit_transfer owner_transfer intent body d st)
      decided (denied reason) pre = block-quiet (Cleared profile intent st) intent reason st h a
      decided allowed pre = recorded (JsMap.get intent.intent_id st.approvals) refl pre

  single-only :
      (profile : ConsumerProfile) (intent : WriteIntent) (st : Flow W)
      → find intent.intent_id st.store ≡ some intent
      → intent.state ≡ approved
      → is_one_call intent.scope ≡ true
      → OnlyIf (Cleared profile intent st) st (
          as_single api js cfg credit_transfer owner_transfer
            (execute_single api js cfg profile.write_capability intent)
            st)
  single-only profile intent st h a k =
      subst (λ s. s.effects ≢ st.effects → Cleared profile intent st)
        (sym (effects-as_single (execute_single api js cfg profile.write_capability intent) st))
        (decided (decision_now api js cfg profile.write_capability intent st) refl)
    where
      decided :
          (d : ExecutionDecision)
          → decision_now api js cfg profile.write_capability intent st ≡ d
          → (execute_single api js cfg profile.write_capability intent st).1.effects ≢ st.effects
          → Cleared profile intent st
      decided allowed e = λ n. by_gate e k
      decided (denied reason) e = λ n.
          absurd
            (n (unless_allowed api js cfg profile.write_capability intent st h a (λ f. cc (e, f))))

  run_scope-only :
      (scope : WriteScope) (profile : ConsumerProfile) (intent : WriteIntent) (st : Flow W)
      → intent.scope ≡ scope
      → find intent.intent_id st.store ≡ some intent
      → intent.state ≡ approved
      → OnlyIf
          (Cleared profile intent st)
          st
          (run_scope api js cfg credit_transfer owner_transfer scope profile intent st)
  run_scope-only billing_credit_transfer profile intent st k h a = λ n. by_credit k
  run_scope-only service_price_restore profile intent st k h a =
      guarded_batch-only profile intent _ st h a (inl k)
  run_scope-only billing_invoice_reassign profile intent st k h a =
      block-quiet (Cleared profile intent st) intent _ st h a
  run_scope-only service_transfer_owner profile intent st k h a =
      guarded_batch-only profile intent _ st h a (inr k)
  run_scope-only _ profile intent st k h a = single-only profile intent st h a (ap is_one_call k)

  approved-is_approved : (s : WriteIntentState) → is_approved s ≡ true → s ≡ approved
  approved-is_approved s h = ground arith

  -- Where every intent is stored under its id, an execution changes the effects (the calls that
  -- change WHMCS and the durable lines of attempts) only for a known caller who drafted the intent,
  -- while the intent is approved and its scope is still granted to the caller, and only in three
  -- ways: a batch of price restores or an owner transfer that steps 1 to 7 of the gate allow and a
  -- consumer other than the drafter has approved; one call, of any other scope, that the whole gate
  -- allows; or a credit
  -- transfer, of which this says no more. The reassignment of an invoice never does. This holds for
  -- every executor of credit transfers and of owner transfers.
  pub execute_run-Entitled :
      (who : ConsumerResolution) (id : String) (st : Flow W)
      → ((i : WriteIntent) → find id st.store ≡ some i → i.intent_id ≡ id)
      → (execute_run api js cfg credit_transfer owner_transfer who id st).1.effects ≢ st.effects
      → Entitled who id st
  unfolding execute_run gets ◌>>=◌ pure
  execute_run-Entitled (unknown reason) id st keyed = λ n. absurd (n refl)
  execute_run-Entitled (known profile) id st keyed = found (find id st.store) refl
    where
      scoped :
          (intent : WriteIntent) (a : WriteScopeAssertion)
          → assert_write_scope_allowed profile (scope_text intent.scope) ≡ a
          → str_eq intent.consumer_id profile.id ≡ true
          → find id st.store ≡ some intent
          → intent.state ≡ approved
          → OnlyIf
              (Entitled (known profile) id st)
              st
              (run_granted api js cfg credit_transfer owner_transfer a profile intent st)
      scoped intent granted g own h s = λ n. record {
        profile = profile;
        intent = intent;
        is_known = refl;
        stored = h;
        own = own;
        is_approved = s;
        is_granted = g;
        cleared =
            run_scope-only intent.scope profile intent st refl
              (ap (λ i. find i st.store) (keyed intent h) ∙ h) s n;
      }
      scoped intent scope_not_allowed g own h s =
          block-quiet (Entitled (known profile) id st) intent
            ExecutionDeniedReason.scope_not_allowed st
            (ap (λ i. find i st.store) (keyed intent h) ∙ h) s
      scoped intent write_capability_false g own h s =
          block-quiet (Entitled (known profile) id st) intent
            ExecutionDeniedReason.scope_not_allowed st
            (ap (λ i. find i st.store) (keyed intent h) ∙ h) s

      if_approved :
          (intent : WriteIntent) (b : Bool)
          → is_approved intent.state ≡ b
          → str_eq intent.consumer_id profile.id ≡ true
          → find id st.store ≡ some intent
          → OnlyIf (Entitled (known profile) id st) st (
              (if b
                  then run_granted api js cfg credit_transfer owner_transfer
                      (assert_write_scope_allowed profile (scope_text intent.scope))
                      profile
                      intent
                  else report_unapproved api js cfg credit_transfer owner_transfer intent)
                st)
      if_approved intent true b own h =
          scoped intent (assert_write_scope_allowed profile (scope_text intent.scope)) refl own h
            (approved-is_approved intent.state b)
      if_approved intent false b own h = λ n. absurd (
          n (
            after-Calm (λ p. p.1.effects ≡ st.effects)
              (append_event api intent_execution_blocked intent (some "intent_not_approved"))
              (λ u.
                pure (single_reply (tool_reply (blocked_result intent intent_not_approved none))))
              st
              (append_event-Calm api intent_execution_blocked intent (some "intent_not_approved"))
              (λ u st₁ same. same.effects)))

      if_own :
          (intent : WriteIntent) (b : Bool)
          → str_eq intent.consumer_id profile.id ≡ b
          → find id st.store ≡ some intent
          → OnlyIf (Entitled (known profile) id st) st (
              (if b
                  then run_own api js cfg credit_transfer owner_transfer profile intent
                  else fail_with api js cfg credit_transfer owner_transfer
                      "intent does not belong to this consumer")
                st)
      if_own intent true own h = if_approved intent (is_approved intent.state) refl own h
      if_own intent false own h = λ n. absurd (n refl)

      found :
          (o : Option WriteIntent)
          → find id st.store ≡ o
          → OnlyIf
              (Entitled (known profile) id st)
              st
              (run_found api js cfg credit_transfer owner_transfer profile o st)
      found none h = λ n. absurd (n refl)
      found (some intent) h = if_own intent (str_eq intent.consumer_id profile.id) refl h
