-- ===== src/Write/Flow/Handlers/Approval.antt =====
-- src/tools/writeFlow.ts: who can approve.
use whmcs_mcp_server.Prelude.{
  ℕ, String, ◌≡◌, refl, sym, ap, subst, ◌∙◌, Bool, true, false, Option, none, some, eq_refl, ◌⊕◌,
  if◌then◌else◌,
}
use whmcs_mcp_server.Prelude.JsMap
use whmcs_mcp_server.Prelude.JsMap.{get-set, get-delete}
use whmcs_mcp_server.Governance.Consumers.{
  ConsumerProfile, ConsumerResolution, known, unknown, WriteScopeAssertion, granted,
  scope_not_allowed, write_capability_false, assert_write_scope_allowed,
}
use whmcs_mcp_server.Write.Scopes.{scope_text}
use whmcs_mcp_server.Write.Types.{
  WriteIntent, WriteIntentState, validated, rejected, approved, HumanApprovalRecord,
}
use whmcs_mcp_server.Write.Intents.{find, includes_state, transitions}
use whmcs_mcp_server.Write.Flow.Program.{
  Api, Flow, Outcome, ok, pure, gets, ◌>>=◌, set_approval, delete_approval, append_event_at,
}
use whmcs_mcp_server.Write.Flow.Single.{Reply, error_reply, tool_reply}
use whmcs_mcp_server.Write.Flow.Steps.{with_state, after_move}
use whmcs_mcp_server.Write.Flow.Handlers.{
  ApproveInput, plain_result, may_not_approve, refuse, is_validated, state_text, approve_validated,
  approval_time, approve_scoped, approve_found, approve_write_intent,
}

abbrev pub decided : ApproveInput → WriteIntentState
decided input = if input.is_approved then approved else rejected

-- The record of an approval: who gave it, as a named person and as a consumer.
abbrev pub IsApprovalBy : ConsumerProfile → ApproveInput → Option HumanApprovalRecord → Type 0
IsApprovalBy profile input none = input.is_approved ≡ false
IsApprovalBy profile input (some r) =
    (input.is_approved ≡ true)
    × (r.approver_consumer_id ≡ profile.id)
    × (r.approver ≡ input.approver)

module _ {W : Type 0} where
  -- How the call that approves or rejects an intent is answered: it is refused and changes nothing,
  -- or its caller is a consumer whose capability permits approvals and who has the scope of the
  -- intent, which was validated; then the intent and the approval are as decided, and neither the
  -- ledger nor the daily amounts nor the effects change.
  pub data Answered (who : ConsumerResolution) (input : ApproveInput) (st : Flow W)
      : Outcome Reply × Flow W → Type 0 where
    was_refused : (message : String) → Answered who input st (ok (error_reply message), st)
    was_decided :
        (profile : ConsumerProfile) (intent : WriteIntent) (st' : Flow W)
        → who ≡ known profile
        → may_not_approve profile.write_capability ≡ false
        → find input.intent_id st.store ≡ some intent
        → assert_write_scope_allowed profile (scope_text intent.scope) ≡ granted
        → intent.state ≡ validated
        → find input.intent_id st'.store ≡ some (with_state intent (decided input))
        → IsApprovalBy profile input (JsMap.get input.intent_id st'.approvals)
        → st'.ledger ≡ st.ledger
        → st'.day_amounts ≡ st.day_amounts
        → st'.effects ≡ st.effects
        → Answered who input st
            (ok (tool_reply (plain_result (with_state intent (decided input)))), st')

module _ {W : Type 0} (api : Api W) (sha256 : String → String) (show : ℕ → String) where
  abbrev pub IsDecision :
      ConsumerProfile → ApproveInput → Flow W → WriteIntent → Outcome Reply × Flow W → Type 0
  IsDecision profile input st intent p =
      (st' : Flow W) × (p
        ≡ (ok (tool_reply (plain_result (with_state intent (decided input)))), st'))
      × (find intent.intent_id st'.store ≡ some (with_state intent (decided input)))
      × IsApprovalBy profile input (JsMap.get intent.intent_id st'.approvals)
      × (st'.ledger ≡ st.ledger)
      × (st'.day_amounts ≡ st.day_amounts)
      × (st'.effects ≡ st.effects)

  pub approve_validated-IsDecision :
      (profile : ConsumerProfile) (input : ApproveInput) (intent : WriteIntent) (st : Flow W)
      → find intent.intent_id st.store ≡ some intent
      → intent.state ≡ validated
      → IsDecision profile input st intent
          (approve_validated api sha256 show profile input intent st)
  unfolding approve_validated gets ◌>>=◌ pure append_event_at set_approval delete_approval
      transitions
  approve_validated-IsDecision profile input intent st h v = go input.is_approved
    where
      go :
          (b : Bool)
          → IsDecision profile
              (record input { is_approved = b })
              st
              intent
              (approve_validated api sha256 show profile
                (record input { is_approved = b })
                intent
                st)
      go true =
          after_move (IsDecision profile (record input { is_approved = true }) st intent)
            intent.intent_id approved _ st intent h
            (ap (λ s. includes_state (transitions s) approved) v)
            (λ st' m. (
              _,
              refl,
              m.stored,
              subst (IsApprovalBy profile (record input { is_approved = true }))
                  (sym (
                    get-set intent.intent_id intent.intent_id
                      (record {
                        approver = input.approver;
                        approver_consumer_id = profile.id;
                        at = approval_time api sha256 show intent (api.clock st'.whmcs);
                      })
                      st'.approvals
                    ∙ ap
                        (λ t.
                          if t
                          then some (record {
                            approver = input.approver;
                            approver_consumer_id = profile.id;
                            at = approval_time api sha256 show intent (api.clock st'.whmcs);
                          })
                          else JsMap.get intent.intent_id st'.approvals)
                        (eq_refl intent.intent_id)))
                  (refl, refl, refl),
              m.ledger,
              m.day_amounts,
              m.effects,
            ))
      go false =
          after_move (IsDecision profile (record input { is_approved = false }) st intent)
            intent.intent_id rejected _ st intent h
            (ap (λ s. includes_state (transitions s) rejected) v)
            (λ st' m. (
              _,
              refl,
              m.stored,
              subst (IsApprovalBy profile (record input { is_approved = false }))
                  (sym (
                    get-delete intent.intent_id intent.intent_id st'.approvals
                    ∙ ap (λ t. if t then none else JsMap.get intent.intent_id st'.approvals)
                        (eq_refl intent.intent_id)))
                  refl,
              m.ledger,
              m.day_amounts,
              m.effects,
            ))

  approve_scoped-Answered :
      (profile : ConsumerProfile) (input : ApproveInput) (intent : WriteIntent) (st : Flow W)
      (a : WriteScopeAssertion)
      → may_not_approve profile.write_capability ≡ false
      → find input.intent_id st.store ≡ some intent
      → intent.intent_id ≡ input.intent_id
      → assert_write_scope_allowed profile (scope_text intent.scope) ≡ a
      → Answered (known profile) input st (approve_scoped api sha256 show a profile input intent st)
  unfolding pure
  approve_scoped-Answered profile input intent st scope_not_allowed cap h k g = was_refused _
  approve_scoped-Answered profile input intent st write_capability_false cap h k g = was_refused _
  approve_scoped-Answered profile input intent st granted cap h k g = go intent.state refl
    where
      go :
          (s : WriteIntentState)
          → intent.state ≡ s
          → Answered (known profile) input st (
              (if is_validated api sha256 show s
                  then approve_validated api sha256 show profile input intent
                  else refuse api sha256 show
                      ("intent must be validated before approval (state=" ⊕ state_text s ⊕ ")"))
                st)
      go validated v =
          let (st', ended, stored, approval, l, d, e) =
            approve_validated-IsDecision profile input intent st
              (subst (λ id. find id st.store ≡ some intent) (sym k) h) v in
          subst (Answered (known profile) input st) (sym ended) (
            was_decided profile intent st' refl cap h g v
              (subst (λ id. find id st'.store ≡ some (with_state intent (decided input))) k stored)
              (subst (λ id. IsApprovalBy profile input (JsMap.get id st'.approvals)) k approval) l d
              e)
      go _ v = was_refused _

  -- An approval is recorded, and an intent approved, only for a caller that is known, whose
  -- capability permits approvals and who has the intent's scope, and only for an intent that was
  -- validated; the approval bears the caller's own consumer id. A call that is refused changes
  -- nothing. The intent is stored under its id.
  pub approve_write_intent-Answered :
      (who : ConsumerResolution) (input : ApproveInput) (st : Flow W)
      → ((i : WriteIntent) → find input.intent_id st.store ≡ some i → i.intent_id ≡ input.intent_id)
      → Answered who input st (approve_write_intent api sha256 show who input st)
  unfolding approve_write_intent pure gets ◌>>=◌
  approve_write_intent-Answered (unknown reason) input st keyed = was_refused _
  approve_write_intent-Answered (known profile) input st keyed =
      go (may_not_approve profile.write_capability) refl
    where
      found :
          (o : Option WriteIntent)
          → find input.intent_id st.store ≡ o
          → may_not_approve profile.write_capability ≡ false
          → Answered (known profile) input st (approve_found api sha256 show profile input o st)
      found none h cap = was_refused _
      found (some intent) h cap =
          approve_scoped-Answered profile input intent st _ cap h (keyed intent h) refl

      go :
          (b : Bool)
          → may_not_approve profile.write_capability ≡ b
          → Answered (known profile) input st (
              (if b
                  then refuse api sha256 show "consumer not permitted to approve write intents"
                  else gets (λ st'. find input.intent_id st'.store)
                    >>= approve_found api sha256 show profile input)
                st)
      go true cap = was_refused _
      go false cap = found (find input.intent_id st.store) refl cap
