-- ===== src/Write/Intents.antt =====
-- src/write/intents.ts: drafts, the state machine of an intent, and the store of intents.
-- The id and the time are arguments. A snapshot file is the list of intents that was last written
-- to it, or `none` where there is none or it does not parse; writing to it succeeds.
pub mod Lifecycle
pub mod Expiry
pub mod Reopen
use whmcs_mcp_server.Prelude.{
  ℕ, ◌+◌, ◌*◌, String, Bool, true, false, not, Option, none, some, List, [], ◌∷◌, leb, ◌||◌, str_eq,
  if◌then◌else◌,
}
use whmcs_mcp_server.Prelude.JsMap
use whmcs_mcp_server.Prelude.JsMap.{JsMap}
use whmcs_mcp_server.Json.{Fields}
use whmcs_mcp_server.Write.Scopes.{WriteScope, scope_text, scope_action, scope_risk}
use whmcs_mcp_server.Write.Types.{
  WriteIntentState, draft, validated, rejected, approved, execution_blocked, executed, verified,
  failed, WriteIntent,
}
use whmcs_mcp_server.Write.Ledger.{idempotency_key, default_window_ms}

abbrev pub default_ttl_ms : ℕ
default_ttl_ms = 15 * 60 * 1000

pub record CreateDraftIntentInput : Type 0 where
  pub consumer_id : String
  pub scope : WriteScope
  pub params : Fields
  pub natural_key : String
  pub preconditions : Fields
  pub projected_effect : String
  pub confirmation : Option String
  pub contract : Option String
  pub window_ms : Option ℕ
  pub ttl_ms : Option ℕ

abbrev or_default : Option ℕ → ℕ → ℕ
or_default none d = d
or_default (some n) d = n

unfoldable pub create_draft_intent :
    (String → String) → (ℕ → String) → String → CreateDraftIntentInput → ℕ → WriteIntent
create_draft_intent sha256 show uuid input now = record {
  intent_id = uuid;
  consumer_id = input.consumer_id;
  scope = input.scope;
  action = scope_action input.scope;
  risk = scope_risk input.scope;
  params = input.params;
  idempotency_key =
      idempotency_key sha256 show input.consumer_id (scope_action input.scope)
        (scope_text input.scope) input.natural_key (or_default input.window_ms default_window_ms)
        now;
  preconditions = input.preconditions;
  projected_effect = input.projected_effect;
  confirmation = input.confirmation;
  state = draft;
  created_at = now;
  expires_at = now + or_default input.ttl_ms default_ttl_ms;
  contract = input.contract;
}

-- TRANSITIONS
unfoldable pub transitions : WriteIntentState → List WriteIntentState
transitions draft = validated ∷ rejected ∷ []
transitions validated = approved ∷ rejected ∷ []
transitions rejected = []
transitions approved = execution_blocked ∷ executed ∷ []
transitions execution_blocked = []
transitions executed = verified ∷ failed ∷ []
transitions verified = []
transitions failed = []

abbrev pub same_state : WriteIntentState → WriteIntentState → Bool
same_state draft draft = true
same_state validated validated = true
same_state rejected rejected = true
same_state approved approved = true
same_state execution_blocked execution_blocked = true
same_state executed executed = true
same_state verified verified = true
same_state failed failed = true
same_state _ _ = false

abbrev pub includes_state : List WriteIntentState → WriteIntentState → Bool
includes_state [] s = false
includes_state (x ∷ xs) s = same_state x s || includes_state xs s

pub record IntentStore : Type 0 where
  pub intents : JsMap WriteIntent
  -- Whether a file path is set.
  pub durable : Bool
  pub snapshot : Option (List WriteIntent)

abbrev pub values {ℓ} : {V : Type ℓ} → JsMap V → List V
values [] = []
values ((k, v) ∷ m) = v ∷ values m

unfoldable pub persist : IntentStore → IntentStore
persist s = if s.durable then record s { snapshot = some (values s.intents) } else s

-- The constructor's loop over a snapshot.
load_intents : List WriteIntent → JsMap WriteIntent → JsMap WriteIntent
load_intents [] m = m
load_intents (i ∷ is) m = load_intents is (JsMap.set i.intent_id i m)

abbrev pub or_nothing : Option (List WriteIntent) → List WriteIntent
or_nothing none = []
or_nothing (some l) = l

unfoldable pub open_store : Bool → Option (List WriteIntent) → IntentStore
unfolding load_intents
open_store durable snapshot = record {
  intents = if durable then load_intents (or_nothing snapshot) [] else [];
  durable = durable;
  snapshot = snapshot;
}

unfoldable pub put : WriteIntent → IntentStore → IntentStore
unfolding persist
put i s = persist (record s { intents = JsMap.set i.intent_id i s.intents })

unfoldable pub find : String → IntentStore → Option WriteIntent
find id s = JsMap.get id s.intents

pub data TransitionError : Type 0 where
  unknown_intent : String → TransitionError
  illegal_transition : WriteIntentState → WriteIntentState → TransitionError

pub data TransitionResult : Type 0 where
  moved : WriteIntent → TransitionResult
  refused : TransitionError → TransitionResult

-- The target is a state by its type, so the source's test of its text always passes.
move : Option WriteIntent → String → WriteIntentState → IntentStore → TransitionResult × IntentStore
unfolding transitions persist
move none id next_state s = (refused (unknown_intent id), s)
move (some current) id next_state s =
    if includes_state (transitions current.state) next_state
    then (
      moved (record current { state = next_state }),
      persist
          (record s { intents = JsMap.set id (record current { state = next_state }) s.intents }),
    )
    else (refused (illegal_transition current.state next_state), s)

unfoldable pub transition : String → WriteIntentState → IntentStore → TransitionResult × IntentStore
unfolding move
transition id next_state s = move (JsMap.get id s.intents) id next_state s

abbrev any_expired : ℕ → JsMap WriteIntent → Bool
any_expired now [] = false
any_expired now ((k, i) ∷ m) = leb i.expires_at now || any_expired now m

unfoldable pub prune : ℕ → IntentStore → IntentStore
unfolding persist
prune now s =
    let kept = record s { intents = JsMap.keep (λ i. not (leb i.expires_at now)) s.intents } in
    if any_expired now s.intents then persist kept else kept

abbrev of_consumer : Option String → List WriteIntent → List WriteIntent
of_consumer none is = is
of_consumer (some id) [] = []
of_consumer (some id) (i ∷ is) =
    let rest = of_consumer (some id) is in if str_eq i.consumer_id id then i ∷ rest else rest

unfoldable pub list_intents : ℕ → Option String → IntentStore → List WriteIntent × IntentStore
unfolding prune
list_intents now consumer_id s =
    let s' = prune now s in (of_consumer consumer_id (values s'.intents), s')
