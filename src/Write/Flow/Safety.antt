-- ===== src/Write/Flow/Safety.antt =====
-- src/tools/writeFlow.ts: when the execution of one WHMCS call sends nothing.
use whmcs_mcp_server.Prelude.{
  ℕ, ◌+◌, ◌≤◌, ◌<◌, String, ◌≡◌, ◌≢◌, sym, ap, ◌∙◌, subst, true, [], arith, some, eq_refl,
}
use whmcs_mcp_server.Write.Scopes.{high, scope_action, scope_risk}
use whmcs_mcp_server.Write.Types.{WriteIntent, approved, production, allowed}
use whmcs_mcp_server.Write.Intents.{find}
use whmcs_mcp_server.Write.Ledger.{seen, record_result}
use whmcs_mcp_server.Write.Ledger.Window.{seen-record_result}
use whmcs_mcp_server.Write.Gate.Risk.{default_execution_authorizer_iff}
use whmcs_mcp_server.Write.Gate.Keystone.{production_sealed}
use whmcs_mcp_server.Write.Mapping.Values.{Js}
use whmcs_mcp_server.Write.Flow.Program.{Api, Flow, Outcome, Config, is_replay}
use whmcs_mcp_server.Write.Flow.Single.{
  Reply, execute_single, decision_now, request_of, executing_mark,
}
use whmcs_mcp_server.Write.Flow.Ends.{Ended, was_blocked, was_failed, was_executed}
use whmcs_mcp_server.Write.Flow.Ends.Run.{execute_single-Ended}

module _ {W : Type 0} (api : Api W) (js : Js) (cfg : Config) where
  Ended-quiet :
      (capability : String) (intent : WriteIntent) (st : Flow W) (p : Outcome Reply × Flow W)
      → decision_now api js cfg capability intent st ≢ allowed
      → Ended api js cfg capability intent st p
      → p.1.effects ≡ st.effects
  Ended-quiet capability intent st p n (was_blocked reason _ st' cause f) = f.effects_are
  Ended-quiet capability intent st p n (was_failed message sending effects w st' d _ _ _ _ _) =
      absurd (n d)
  Ended-quiet capability intent st p n (was_executed v effects w day st' d _ _ _ _ _) = absurd (n d)

  pub unless_allowed :
      (capability : String) (intent : WriteIntent) (st : Flow W)
      → find intent.intent_id st.store ≡ some intent
      → intent.state ≡ approved
      → decision_now api js cfg capability intent st ≢ allowed
      → (execute_single api js cfg capability intent st).1.effects ≡ st.effects
  unless_allowed capability intent st h a n =
      Ended-quiet capability intent st _ n
        (execute_single-Ended api js cfg capability intent st h a)

  -- In production, with an empty allowlist and no destructive scope opted in, executing a high-risk
  -- intent whose action and risk are those of its scope sends nothing to WHMCS and writes no line
  -- of an attempt, whatever was approved and whatever WHMCS and the disk answer.
  pub execute_single-sealed :
      (capability : String) (intent : WriteIntent) (st : Flow W)
      → find intent.intent_id st.store ≡ some intent
      → intent.state ≡ approved
      → intent.action ≡ scope_action intent.scope
      → intent.risk ≡ scope_risk intent.scope
      → scope_risk intent.scope ≡ high
      → cfg.env ≡ production
      → cfg.prod_authorized_actions ≡ []
      → cfg.allowed_destructive_scopes ≡ []
      → (execute_single api js cfg capability intent st).1.effects ≡ st.effects
  unfolding decision_now request_of
  execute_single-sealed capability intent st h a act risk is_high prod allow destructive =
      unless_allowed capability intent st h a (
        production_sealed _ _ (record { action = act; risk = risk }) prod (risk ∙ is_high) allow
          destructive)

  replay-denied :
      (capability : String) (intent : WriteIntent) (st : Flow W)
      → is_replay api st intent.idempotency_key ≡ true
      → decision_now api js cfg capability intent st ≢ allowed
  unfolding decision_now request_of
  replay-denied capability intent st seen_before h =
      let (pre, _) = (default_execution_authorizer_iff _ _).0 h in cc (pre.fresh, seen_before)

  Ended-recorded :
      (capability : String) (intent : WriteIntent) (st : Flow W) (p : Outcome Reply × Flow W)
      → p.1.effects ≢ st.effects
      → Ended api js cfg capability intent st p
      → (w : W) × (p.1.ledger
          ≡ record_result intent.idempotency_key executing_mark (api.clock w) st.ledger)
  Ended-recorded capability intent st p n (was_blocked reason _ st' cause f) =
      absurd (n f.effects_are)
  Ended-recorded capability intent st p n (was_failed message sending effects w st' _ _ _ _ _ f) =
      (w, f.ledger_is)
  Ended-recorded capability intent st p n (was_executed v effects w day st' _ _ _ _ _ f) =
      (w, f.ledger_is)

  -- Once the execution of an intent has sent something or has announced it, executing any intent
  -- with the same idempotency key sends nothing and announces nothing, from any later state with
  -- the ledger that the first one left, until the window that began no later than the first call
  -- has passed. `t` is a time that no reading of the clock precedes.
  pub execute_single-once :
      (t : ℕ) (i j : WriteIntent) (capability capability' : String) (st later : Flow W)
      → ((w : W) → t ≤ api.clock w)
      → find i.intent_id st.store ≡ some i
      → i.state ≡ approved
      → (execute_single api js cfg capability i st).1.effects ≢ st.effects
      → find j.intent_id later.store ≡ some j
      → j.state ≡ approved
      → j.idempotency_key ≡ i.idempotency_key
      → later.ledger ≡ (execute_single api js cfg capability i st).1.ledger
      → api.clock later.whmcs < t + st.ledger.window_ms
      → (execute_single api js cfg capability' j later).1.effects ≡ later.effects
  unfolding is_replay
  execute_single-once t i j capability capability' st later from hi ai sent hj aj key ledger
        within =
      let (w, recorded) =
        Ended-recorded capability i st _ sent
          (execute_single-Ended api js cfg capability i st hi ai) in
      unless_allowed capability' j later hj aj (
        replay-denied capability' j later (
          subst (λ k. is_replay api later k ≡ true) (sym key)
            (ap (λ l. (seen i.idempotency_key (api.clock later.whmcs) l).0) (ledger ∙ recorded)
              ∙ seen-record_result i.idempotency_key i.idempotency_key executing_mark (api.clock w)
                  (api.clock later.whmcs) st.ledger
              ∙ ground (arith, eq_refl i.idempotency_key, from w))))
