-- ===== src/Write/Flow/Program.antt =====
-- src/tools/writeFlow.ts: the state that the tools share, and programs over it.
-- WHMCS, the disk and the clock are parameters: what they answer and how the state behind them
-- changes is arbitrary. The calls that change WHMCS, and the audit lines that had to be durable,
-- are kept in `effects`, the newest first, for the theorems to speak of. The lookup of the
-- idempotency key drops an expired entry, which changes no later answer and is left out.
use whmcs_mcp_server.Prelude.{ℕ, String, Bool, true, false, Option, none, some, List, ◌∷◌}
use whmcs_mcp_server.Prelude.JsNumber.{JsNumber}
use whmcs_mcp_server.Prelude.JsMap
use whmcs_mcp_server.Prelude.JsMap.{JsMap}
use whmcs_mcp_server.Json.{Json, Fields}
use whmcs_mcp_server.Write.Types.{
  WriteIntent, WriteIntentState, HumanApprovalRecord, HighRiskCaps, ExecutionEnv, McpMode,
}
use whmcs_mcp_server.Write.Intents
use whmcs_mcp_server.Write.Intents.{
  IntentStore, TransitionError, TransitionResult, moved, refused, transition,
}
use whmcs_mcp_server.Write.Ledger.{IdempotencyLedger, record_result, seen}
use whmcs_mcp_server.Write.DayAmounts
use whmcs_mcp_server.Write.DayAmounts.{DayAmountsStore}
use whmcs_mcp_server.Write.Audit.{
  AuditEvent, AuditEventType, AuditLog, audit_event, append, append_durable,
}
use whmcs_mcp_server.Write.Mapping.Values.{Output}

pub record Api (W : Type 0) : Type 0 where
  -- A call that reads: the response, or `none` if it throws.
  pub read : String → Output → W → Option Fields × W
  -- A call that changes: `none` if it returns, else the message it throws.
  pub mutate : String → Output → W → Option String × W
  -- Whether a line of the audit file is written and synced.
  pub write_line : AuditEvent → W → Bool × W
  pub clock : W → ℕ
  -- `toISOString` of a time, and its day.
  pub iso : ℕ → String
  pub utc_day : ℕ → String

pub data Effect : Type 0 where
  audited : AuditEvent → Effect
  -- The action, its parameters, and whether the call returned.
  mutated : String → Output → Bool → Effect

abbrev pub returns : Option String → Bool
returns none = true
returns (some message) = false

pub record Flow (W : Type 0) : Type 0 where
  pub whmcs : W
  pub store : IntentStore
  pub ledger : IdempotencyLedger
  pub approvals : JsMap HumanApprovalRecord
  pub day_amounts : DayAmountsStore
  pub audit : AuditLog
  pub effects : List Effect

pub data Outcome {ℓ} (A : Type ℓ) : Type ℓ where
  ok : A → Outcome A
  threw : TransitionError → Outcome A

abbrev pub M : Type 0 → Type 0 → Type 0
M W A = Flow W → Outcome A × Flow W

module _ {W A : Type 0} where
  unfoldable pub pure : A → M W A
  pure a st = (ok a, st)

  unfoldable pub gets : (Flow W → A) → M W A
  gets f st = (ok (f st), st)

module _ {W A B : Type 0} where
  abbrev pub continue : Outcome A → (A → M W B) → M W B
  continue (ok a) k st = k a st
  continue (threw e) k st = (threw e, st)

  infixl 5 ◌>>=◌ ◌>>◌
  unfoldable pub ◌>>=◌ : M W A → (A → M W B) → M W B
  unfolding pure gets
  ◌>>=◌ m k st = let (r, st') = m st in continue r k st'

  abbrev pub ◌>>◌ : M W A → M W B → M W B
  m >> k = m >>= λ _. k

abbrev pub moved_outcome : TransitionResult → Outcome WriteIntent
moved_outcome (moved intent) = ok intent
moved_outcome (refused e) = threw e

-- `store.transition`, which throws where the transition is not legal.
unfoldable pub move_intent : {W : Type 0} → String → WriteIntentState → M W WriteIntent
move_intent id next st =
    let (r, store) = transition id next st.store in (moved_outcome r, record st { store = store })

abbrev pub durable_outcome :
    {W : Type 0} → Option AuditLog → AuditEvent → Flow W → Outcome Bool × Flow W
durable_outcome none e st = (ok false, st)
durable_outcome (some log) e st =
    (ok true, record st { audit = log; effects = audited e ∷ st.effects })

module _ {W : Type 0} where
  -- `store.put`
  unfoldable pub put_intent : WriteIntent → M W (Unit {0})
  put_intent intent st = (ok tt, record st { store = Intents.put intent st.store })

  -- `approvals.set` and `approvals.delete`
  unfoldable pub set_approval : String → HumanApprovalRecord → M W (Unit {0})
  set_approval id approval st =
      (ok tt, record st { approvals = JsMap.set id approval st.approvals })

  unfoldable pub delete_approval : String → M W (Unit {0})
  delete_approval id st = (ok tt, record st { approvals = JsMap.delete id st.approvals })

module _ {W : Type 0} (api : Api W) where
  unfoldable pub read : String → Output → M W (Option Fields)
  read action params st =
      let (r, w) = api.read action params st.whmcs in (ok r, record st { whmcs = w })

  unfoldable pub mutate : String → Output → M W (Option String)
  mutate action params st =
      let (r, w) = api.mutate action params st.whmcs in
      (ok r, record st { whmcs = w; effects = mutated action params (returns r) ∷ st.effects })

  -- `audit.append(auditEvent(…))`
  unfoldable pub append_event : AuditEventType → WriteIntent → Option String → M W (Unit {0})
  append_event type intent detail st =
      let e = audit_event type intent detail (api.iso (api.clock st.whmcs)) in
      let (written, w) = api.write_line e st.whmcs in
      (ok tt, record st { whmcs = w; audit = append written e st.audit })

  -- The same, with a time that the caller gives.
  unfoldable pub append_event_at :
      String → AuditEventType → WriteIntent → Option String → M W (Unit {0})
  append_event_at at type intent detail st =
      let e = audit_event type intent detail at in
      let (written, w) = api.write_line e st.whmcs in
      (ok tt, record st { whmcs = w; audit = append written e st.audit })

  -- `audit.appendDurable(auditEvent(…))`: false where it throws an `AuditPersistError`.
  unfoldable pub append_event_durable : AuditEventType → WriteIntent → Option String → M W Bool
  append_event_durable type intent detail st =
      let e = audit_event type intent detail (api.iso (api.clock st.whmcs)) in
      let (written, w) = api.write_line e st.whmcs in
      durable_outcome (append_durable written e st.audit) e (record st { whmcs = w })

  unfoldable pub add_amount : String → JsNumber → M W (Unit {0})
  add_amount action amount st = (
    ok tt,
    record st {
      day_amounts = DayAmounts.add action amount (api.utc_day (api.clock st.whmcs)) st.day_amounts;
    },
  )

  -- `ledger.record`, at the time that the clock shows.
  unfoldable pub record_key : String → Json → M W (Unit {0})
  record_key key result st =
      (ok tt, record st { ledger = record_result key result (api.clock st.whmcs) st.ledger })

  -- The replay predicate that the gate is given.
  unfoldable pub is_replay : Flow W → String → Bool
  is_replay st key = (seen key (api.clock st.whmcs) st.ledger).0

-- The settings that the tools read.
pub record Config : Type 0 where
  pub env : ExecutionEnv
  pub mcp_mode : McpMode
  pub kill_switch : Bool
  pub runtime_authorized_actions : List String
  pub prod_authorized_actions : List String
  pub strict_allowlist : Bool
  pub strict_scopes : List String
  pub require_distinct_approver : Bool
  pub destructive_confirm_phrase : String
  pub allowed_destructive_scopes : List String
  pub caps : HighRiskCaps

pub data Stage : Type 0 where
  at_draft at_validate at_approve at_execute : Stage
