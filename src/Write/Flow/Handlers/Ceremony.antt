-- ===== src/Write/Flow/Handlers/Ceremony.antt =====
-- src/tools/writeFlow.ts: the way of an intent through the tools, from a draft to a decision.
use whmcs_mcp_server.Prelude.{
  ℕ, String, ◌≡◌, refl, sym, ap, subst, ◌∙◌, Bool, true, false, some, eq_refl, if◌then◌else◌,
  str_eq, ◌⊕◌,
}
use whmcs_mcp_server.Prelude.JsMap
use whmcs_mcp_server.Prelude.JsMap.{get-set}
use whmcs_mcp_server.Governance.Consumers.{
  ConsumerProfile, known, granted, assert_write_scope_allowed,
}
use whmcs_mcp_server.Write.Scopes.{scope_text}
use whmcs_mcp_server.Write.Types.{WriteIntent, WriteIntentState, draft, validated}
use whmcs_mcp_server.Write.Intents.{
  IntentStore, find, put, persist, includes_state, transitions, create_draft_intent,
}
use whmcs_mcp_server.Write.Flow.Program.{
  Api, Flow, Outcome, ok, pure, gets, ◌>>=◌, put_intent, append_event,
}
use whmcs_mcp_server.Write.Flow.Single.{Reply, tool_reply}
use whmcs_mcp_server.Write.Flow.Steps.{with_state, Moved, bind_ok, after_move}
use whmcs_mcp_server.Write.Flow.Handlers.{
  DraftInput, ApproveInput, drafted, draft_granted, draft_scoped, draft_write_intent, validate_own,
  validate_found, validate_write_intent, may_not_approve, approve_found, approve_validated,
  approve_scoped, approve_write_intent, plain_result, refuse, is_validated, state_text,
}
use whmcs_mcp_server.Write.Flow.Handlers.Approval.{IsDecision, approve_validated-IsDecision}

intents-persist : (s : IntentStore) → (persist s).intents ≡ s.intents
unfolding persist
intents-persist s = go s.durable
  where
    go : (b : Bool) → (persist (record s { durable = b })).intents ≡ s.intents
    go true = refl
    go false = refl

find-put : (i : WriteIntent) (s : IntentStore) → find i.intent_id (put i s) ≡ some i
unfolding find put
find-put i s =
    ap (JsMap.get i.intent_id)
      (intents-persist (record s { intents = JsMap.set i.intent_id i s.intents }))
    ∙ get-set i.intent_id i.intent_id i s.intents
    ∙ ap (λ t. if t then some i else JsMap.get i.intent_id s.intents) (eq_refl i.intent_id)

module _ {W : Type 0} (api : Api W) (sha256 : String → String) (show : ℕ → String) where
  -- A step that answers with an intent in a state, and leaves it so in the store.
  abbrev Reaches : WriteIntent → WriteIntentState → Flow W → Outcome Reply × Flow W → Type 0
  Reaches intent s st p =
      (p.0 ≡ ok (tool_reply (plain_result (with_state intent s))))
      × Moved intent intent.intent_id s st p.1

  draft_granted-Reaches :
      (profile : ConsumerProfile) (input : DraftInput) (uuid : String) (st : Flow W)
      → Reaches
          (drafted sha256 show uuid profile.id input (api.clock st.whmcs))
          draft
          st
          (draft_granted api sha256 show profile input uuid st)
  unfolding draft_granted create_draft_intent gets pure ◌>>=◌ put_intent append_event
  draft_granted-Reaches profile input uuid st = (
    refl,
    record {
      stored = find-put (drafted sha256 show uuid profile.id input (api.clock st.whmcs)) st.store;
      ledger = refl;
      approvals = refl;
      day_amounts = refl;
      effects = refl;
    },
  )

  validate_own-Reaches :
      (intent : WriteIntent) (st : Flow W)
      → find intent.intent_id st.store ≡ some intent
      → intent.state ≡ draft
      → Reaches intent validated st (validate_own api sha256 show intent true st)
  unfolding validate_own transitions pure append_event ◌>>=◌
  validate_own-Reaches intent st h d =
      after_move (Reaches intent validated st) intent.intent_id validated _ st intent h
        (ap (λ s. includes_state (transitions s) validated) d)
        (λ st' m. (
          refl,
          record {
            stored = m.stored;
            ledger = m.ledger;
            approvals = m.approvals;
            day_amounts = m.day_amounts;
            effects = m.effects;
          },
        ))

  -- Drafting where the caller has the scope.
  draft_write_intent-Reaches :
      (profile : ConsumerProfile) (input : DraftInput) (uuid : String) (st : Flow W)
      → assert_write_scope_allowed profile (scope_text input.scope) ≡ granted
      → Reaches
          (drafted sha256 show uuid profile.id input (api.clock st.whmcs))
          draft
          st
          (draft_write_intent api sha256 show (known profile) input uuid st)
  unfolding draft_write_intent
  draft_write_intent-Reaches profile input uuid st g =
      subst
        (λ a.
          Reaches (drafted sha256 show uuid profile.id input (api.clock st.whmcs)) draft st
            (draft_scoped api sha256 show a profile input uuid st))
        (sym g) (draft_granted-Reaches profile input uuid st)

  -- Validating one's own draft, where the validation finds nothing wrong.
  validate_write_intent-Reaches :
      (profile : ConsumerProfile) (validate : WriteIntent → Bool) (intent : WriteIntent)
      (st : Flow W)
      → find intent.intent_id st.store ≡ some intent
      → intent.state ≡ draft
      → intent.consumer_id ≡ profile.id
      → validate intent ≡ true
      → Reaches intent validated st
          (validate_write_intent api sha256 show (known profile) intent.intent_id validate st)
  unfolding validate_write_intent gets ◌>>=◌
  validate_write_intent-Reaches profile validate intent st h d own v =
      subst
        (λ o. Reaches intent validated st (validate_found api sha256 show profile validate o st))
        (sym h)
        (subst
          (λ b. Reaches intent validated st (
            (if b
                then validate_own api sha256 show intent (validate intent)
                else refuse api sha256 show "intent does not belong to this consumer")
              st))
          (sym (ap (str_eq intent.consumer_id) (sym own) ∙ eq_refl intent.consumer_id))
          (subst (λ b. Reaches intent validated st (validate_own api sha256 show intent b st))
            (sym v) (validate_own-Reaches intent st h d)))

  approve_write_intent-IsDecision :
      (profile : ConsumerProfile) (input : ApproveInput) (intent : WriteIntent) (st : Flow W)
      → find intent.intent_id st.store ≡ some intent
      → intent.state ≡ validated
      → input.intent_id ≡ intent.intent_id
      → may_not_approve profile.write_capability ≡ false
      → assert_write_scope_allowed profile (scope_text intent.scope) ≡ granted
      → IsDecision api sha256 show profile input st intent
          (approve_write_intent api sha256 show (known profile) input st)
  unfolding approve_write_intent gets ◌>>=◌
  approve_write_intent-IsDecision profile input intent st h v k can g =
      subst
        (λ b. IsDecision api sha256 show profile input st intent (
          (if b
              then refuse api sha256 show "consumer not permitted to approve write intents"
              else gets (λ st'. find input.intent_id st'.store)
                >>= approve_found api sha256 show profile input)
            st))
        (sym can)
        (subst
          (λ o.
            IsDecision api sha256 show profile input st intent
              (approve_found api sha256 show profile input o st))
          (sym (ap (λ id. find id st.store) k ∙ h))
          (subst
            (λ a.
              IsDecision api sha256 show profile input st intent
                (approve_scoped api sha256 show a profile input intent st))
            (sym g)
            (subst
              (λ s. IsDecision api sha256 show profile input st intent (
                (if is_validated api sha256 show s
                    then approve_validated api sha256 show profile input intent
                    else refuse api sha256 show
                        ("intent must be validated before approval (state=" ⊕ state_text s ⊕ ")"))
                  st))
              (sym v) (approve_validated-IsDecision api sha256 show profile input intent st h v))))

  rebase :
      (profile : ConsumerProfile) (input : ApproveInput) (intent : WriteIntent)
      (st st₁ st₂ : Flow W) (p : Outcome Reply × Flow W)
      → Moved intent intent.intent_id draft st st₁
      → Moved intent intent.intent_id validated st₁ st₂
      → IsDecision api sha256 show profile input st₂ (with_state intent validated) p
      → IsDecision api sha256 show profile input st intent p
  rebase profile input intent st st₁ st₂ p m n (st', answer, stored, by, ledger, days, effects) = (
    st',
    answer,
    stored,
    by,
    ledger ∙ n.ledger ∙ m.ledger,
    days ∙ n.day_amounts ∙ m.day_amounts,
    effects ∙ n.effects ∙ m.effects,
  )

  -- A consumer who may write the scope drafts an intent and validates it, nothing being wrong with
  -- it; then a consumer who may approve and who may write the scope decides. When the three calls
  -- run one after another, the answer is the intent, approved or rejected as decided; it is so in
  -- the store, its approval is recorded under both names exactly when it is approved, and the
  -- ledger, the daily amounts and the effects are as before the draft.
  pub write_flow-IsDecision :
      (who approver : ConsumerProfile) (input : DraftInput) (uuid : String)
      (validate : WriteIntent → Bool) (decision : ApproveInput) (st : Flow W)
      → assert_write_scope_allowed who (scope_text input.scope) ≡ granted
      → validate (drafted sha256 show uuid who.id input (api.clock st.whmcs)) ≡ true
      → decision.intent_id ≡ uuid
      → may_not_approve approver.write_capability ≡ false
      → assert_write_scope_allowed approver (scope_text input.scope) ≡ granted
      → IsDecision api sha256 show approver decision st
          (drafted sha256 show uuid who.id input (api.clock st.whmcs))
          ((draft_write_intent api sha256 show (known who) input uuid >>= λ _.
              (validate_write_intent api sha256 show (known who) uuid validate >>= λ _.
              approve_write_intent api sha256 show (known approver) decision))
            st)
  unfolding create_draft_intent
  write_flow-IsDecision who approver input uuid validate decision st scope v k can g =
      let d = drafted sha256 show uuid who.id input (api.clock st.whmcs) in
      let drafting = draft_write_intent api sha256 show (known who) input uuid in
      let validating = validate_write_intent api sha256 show (known who) uuid validate in
      let deciding = approve_write_intent api sha256 show (known approver) decision in
      let st₁ = (drafting st).1 in
      let st₂ = (validating st₁).1 in
      let (drafted_ok, m) = draft_write_intent-Reaches who input uuid st scope in
      let (validated_ok, n) =
        validate_write_intent-Reaches who validate d st₁ m.stored refl refl v in
      subst (IsDecision api sha256 show approver decision st d)
        (sym (
          bind_ok drafting (λ _. (validating >>= λ _. deciding)) st _ drafted_ok
          ∙ bind_ok validating (λ _. deciding) st₁ _ validated_ok))
        (rebase approver decision d st st₁ st₂ _ m n (
          approve_write_intent-IsDecision approver decision (with_state d validated) st₂ n.stored
            refl k can g))
