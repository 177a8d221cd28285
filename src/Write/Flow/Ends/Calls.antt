-- ===== src/Write/Flow/Ends/Calls.antt =====
-- src/tools/writeFlow.ts: the steps of an execution, each by what it does to the state.
use whmcs_mcp_server.Prelude.{
  String, ◌≡◌, ◌↔◌, refl, ap, Bool, true, false, Option, none, some, List, [], ◌∷◌, ◌⊎◌, arith,
  if◌then◌else◌, inl, inr, Bool-cases,
}
use whmcs_mcp_server.Json.{Json, Fields, property}
use whmcs_mcp_server.Write.Types.{
  WriteIntent, executed, ExecutionDeniedReason, precondition_mismatch, AmountContext,
}
use whmcs_mcp_server.Write.Gate.{is_high}
use whmcs_mcp_server.Write.Ledger.{IdempotencyLedger}
use whmcs_mcp_server.Write.DayAmounts
use whmcs_mcp_server.Write.DayAmounts.{DayAmountsStore}
use whmcs_mcp_server.Write.Audit.{AuditEvent}
use whmcs_mcp_server.Write.Mapping.Values.{Js}
use whmcs_mcp_server.Write.Mapping.Services.{Mapping, mapped, refused}
use whmcs_mcp_server.Write.Flow.Program.{
  Api, Flow, ok, Config, Effect, audited, mutated, returns, pure, ◌>>=◌, read, mutate, add_amount,
}
use whmcs_mcp_server.Write.Flow.Assertions.{assert_output}
use whmcs_mcp_server.Write.Flow.Steps.{Calm, pure-Calm, bind-Calm, read-Calm, if-Calm}
use whmcs_mcp_server.Write.Flow.Single.{
  precheck, precheck_domain_rename, is_domain_rename, check_response, service_query, send,
  send_unless, verify, verify_by_action, tally, mapping_error_text,
}
use whmcs_mcp_server.Write.Flow.Ends.{
  IsVerified, IsAsExpected, Passes, checked, Facts, Sending, not_sent, sent_and, HasFailed,
  IsAttempt, whmcs_params, Trail, tallied,
}

module _ {W : Type 0} (api : Api W) (js : Js) (cfg : Config) where
  -- What the precondition answers.
  abbrev pub mismatch_now : WriteIntent → Flow W → Option ExecutionDeniedReason
  mismatch_now intent st =
      if is_domain_rename intent.scope
      then check_response api js cfg intent
          (api.read "GetClientsProducts" (service_query api js cfg intent) st.whmcs).0
      else none

  -- The precondition only reads.
  pub precheck-read :
      (intent : WriteIntent) (st : Flow W)
      → precheck api js cfg intent st
        ≡ (ok (mismatch_now intent st), record st { whmcs = checked api js cfg intent st })
  unfolding precheck precheck_domain_rename ◌>>=◌ read pure
  precheck-read intent st = go (is_domain_rename intent.scope)
    where
      go :
          (b : Bool)
          → (if b then precheck_domain_rename api js cfg intent else pure none) st ≡ (
            ok (
                if b
                then check_response api js cfg intent
                    (api.read "GetClientsProducts" (service_query api js cfg intent) st.whmcs).0
                else none),
            record st {
              whmcs =
                  if b
                  then (api.read "GetClientsProducts" (service_query api js cfg intent) st.whmcs).1
                  else st.whmcs;
            },
          )
      go true = refl
      go false = refl

  check_response-IsAsExpected :
      (intent : WriteIntent) (resp : Option Fields)
      → (check_response api js cfg intent resp ≡ none) ↔ IsAsExpected api js cfg intent resp
  check_response-IsAsExpected intent resp = (λ h. ground arith, λ h. ground arith)

  check_response-mismatch :
      (intent : WriteIntent) (resp : Option Fields)
      → (check_response api js cfg intent resp ≡ none)
        ⊎ (check_response api js cfg intent resp ≡ some precondition_mismatch)
  check_response-mismatch intent resp = ground arith

  pub mismatch_now-none :
      (intent : WriteIntent) (st : Flow W)
      → mismatch_now intent st ≡ none
      → Passes api js cfg intent st
  mismatch_now-none intent st h k = (check_response-IsAsExpected intent _).0 (rw k at h)

  pub mismatch_now-some :
      (intent : WriteIntent) (st : Flow W) (reason : ExecutionDeniedReason)
      → mismatch_now intent st ≡ some reason
      → (reason ≡ precondition_mismatch) × (¬ Passes api js cfg intent st)
  mismatch_now-some intent st reason = go (is_domain_rename intent.scope)
    where
      resp : Option Fields
      resp = (api.read "GetClientsProducts" (service_query api js cfg intent) st.whmcs).0

      go :
          (b : Bool)
          → (if b then check_response api js cfg intent resp else none) ≡ some reason
          → (reason ≡ precondition_mismatch) × (¬ (b ≡ true → IsAsExpected api js cfg intent resp))
      go true h = (
        ground (arith, check_response-mismatch intent resp),
        λ p. cc (h, (check_response-IsAsExpected intent resp).1 (p refl)),
      )
      go false h = absurd (ground arith)

  verify_by_action-Calm : (action : Option Json) → Calm (verify_by_action api js cfg action)
  verify_by_action-Calm (some (Json.text action)) =
      bind-Calm _ _ (read-Calm api action []) (λ resp. pure-Calm _)
  verify_by_action-Calm _ = pure-Calm false

  pub verify-Calm : (intent : WriteIntent) → Calm (verify api js cfg intent)
  unfolding verify
  verify-Calm intent =
      if-Calm (is_domain_rename intent.scope) _ _
        (bind-Calm _ _ (read-Calm api _ _) (λ resp. pure-Calm _))
        (verify_by_action-Calm (property "verifyAction" intent.preconditions))

  verify_by_action-IsVerified :
      (intent : WriteIntent) (o : Option Json) (st : Flow W)
      → is_domain_rename intent.scope ≡ false
      → property "verifyAction" intent.preconditions ≡ o
      → (verify_by_action api js cfg o st).0 ≡ ok true
      → IsVerified api js cfg intent
  unfolding ◌>>=◌ read pure
  verify_by_action-IsVerified intent (some (Json.text action)) st k e h =
      inr (k, (action, e, (st.whmcs, ground arith)))
  verify_by_action-IsVerified intent _ st k e h = absurd (ground arith)

  pub verify-IsVerified :
      (intent : WriteIntent) (st : Flow W)
      → (verify api js cfg intent st).0 ≡ ok true
      → IsVerified api js cfg intent
  unfolding verify ◌>>=◌ read pure
  verify-IsVerified intent st h = elim (Bool-cases (is_domain_rename intent.scope)) [
    | inl renames ↦ inl (renames, (st.whmcs, ground arith))
    | inr other ↦
        verify_by_action-IsVerified intent (property "verifyAction" intent.preconditions) st other
          refl (rw other at h)
  ]

  -- What is known once the call was made or refused: without an error it was made.
  abbrev pub SentOr :
      (intent : WriteIntent)
      → IdempotencyLedger
      → DayAmountsStore
      → List Effect
      → Flow W
      → Option String
      → Type 0
  SentOr intent l d es st (some message) =
      (sending : Sending) × (effects : List Effect) × HasFailed sending
      × Trail api js cfg intent es sending effects
      × Facts intent executed l d effects st
  SentOr intent l d es st none =
      (effects : List Effect) × Trail api js cfg intent es (sent_and true) effects
      × Facts intent executed l d effects st

  SentOr-sent :
      (intent : WriteIntent) (l : IdempotencyLedger) (d : DayAmountsStore) (es : List Effect)
      (effects : List Effect) (st : Flow W) (r : Option String)
      → Trail api js cfg intent es (sent_and (returns r)) effects
      → Facts intent executed l d effects st
      → SentOr intent l d es st r
  SentOr-sent intent l d es effects st none t f = (effects, t, f)
  SentOr-sent intent l d es effects st (some message) t f = (sent_and false, effects, refl, t, f)

  pub send-SentOr :
      (intent : WriteIntent) (l : IdempotencyLedger) (d : DayAmountsStore) (es : List Effect)
      (st : Flow W) (e : AuditEvent) (m : Mapping)
      → whmcs_params api js cfg intent ≡ m
      → IsAttempt api js cfg intent e
      → Facts intent executed l d (audited e ∷ es) st
      → (r : Option String) × ((send api js cfg intent m st).0 ≡ ok r)
        × SentOr intent l d es (send api js cfg intent m st).1 r
  unfolding send pure mutate
  send-SentOr intent l d es st e (refused error) h a f = (
    some (mapping_error_text error),
    refl,
    (not_sent, audited e ∷ es, tt, Trail.unsent e a (inl (error, h)), f),
  )
  send-SentOr intent l d es st e (mapped out) h a f = go (assert_output intent.scope out) refl
    where
      go :
          (o : Option String)
          → assert_output intent.scope out ≡ o
          → (r : Option String) × ((send_unless api js cfg intent out o st).0 ≡ ok r)
            × SentOr intent l d es (send_unless api js cfg intent out o st).1 r
      go (some message) k = (
        some message,
        refl,
        (not_sent, audited e ∷ es, tt, Trail.unsent e a (inr (out, message, h, k)), f),
      )
      go none k =
          let r = (api.mutate intent.action out st.whmcs).0 in
          (
            r,
            refl,
            SentOr-sent intent l d es (mutated intent.action out (returns r) ∷ audited e ∷ es) _ r
                (Trail.sent e out (returns r) a h k)
                (record {
                  stored = f.stored;
                  ledger_is = f.ledger_is;
                  days_are = f.days_are;
                  effects_are = ap (λ xs. mutated intent.action out (returns r) ∷ xs) f.effects_are;
                }),
          )

  -- The tally, by what it does to the daily amounts.
  pub tally-Facts :
      (intent : WriteIntent) (l : IdempotencyLedger) (d : DayAmountsStore) (es : List Effect)
      (amount : Option AmountContext) (st : Flow W)
      → Facts intent executed l d es st
      → ((tally api js cfg intent amount st).0 ≡ ok tt)
        × ((day : String) × Facts intent executed l
              (tallied api js cfg intent amount day d)
              es
              (tally api js cfg intent amount st).1)
  unfolding pure add_amount
  tally-Facts intent l d es none st f = (refl, ("", f))
  tally-Facts intent l d es (some amt) st f = go (is_high intent.risk)
    where
      go :
          (b : Bool)
          → (((if b then add_amount api intent.action amt.amount else pure tt) st).0 ≡ ok tt)
            × ((day : String) × Facts intent executed l
                  (if b then DayAmounts.add intent.action amt.amount day d else d)
                  es
                  ((if b then add_amount api intent.action amt.amount else pure tt) st).1)
      go false = (refl, ("", f))
      go true = (
        refl,
        (
          api.utc_day (api.clock st.whmcs),
          record {
            stored = f.stored;
            ledger_is = f.ledger_is;
            days_are =
                ap (DayAmounts.add intent.action amt.amount (api.utc_day (api.clock st.whmcs)))
                  f.days_are;
            effects_are = f.effects_are;
          },
        ),
      )
