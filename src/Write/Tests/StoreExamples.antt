-- ===== src/Write/Tests/StoreExamples.antt =====
-- One intent through its life, and a ledger across a restart.
use mathlib.Core.List.{Memᴰ}
use text.Mathlib.TextLemmas.{tail-eq_of_cons-eq, nil≢cons, cons≢nil}
use whmcs_mcp_server.Prelude.{
  ℕ, zero, suc, ◌+◌, ap, All, ◌≤◌, String, ◌≡◌, ◌↔◌, refl, true, none, some, List, [], ◌∷◌, length,
  arith, ltb, if◌then◌else◌, str_eq,
}
use whmcs_mcp_server.Prelude.JsMap
use whmcs_mcp_server.Prelude.JsMap.{guarded}
use whmcs_mcp_server.Json.{null, end}
use whmcs_mcp_server.Write.Scopes.{billing_credit_add, scope_risk}
use whmcs_mcp_server.Write.Types.{
  WriteIntent, WriteIntentState, draft, validated, approved, executed,
}
use whmcs_mcp_server.Write.DayAmounts.{DayAmountsRecord, DayAmountsStore, get_total, open_amounts}
use whmcs_mcp_server.Write.DayAmounts.Restart.{add_all, get_total-restart}
use whmcs_mcp_server.Prelude.{pos, Option}
use whmcs_mcp_server.Write.Intents.{moved, IntentStore, find, transition, open_store, list_intents}
use whmcs_mcp_server.Write.Intents.Lifecycle.{
  Request, Way, request_all, accepted, transition-moved, IsLegal, request_all-Way, accepted_bound,
  executed_needs_approval,
}
use whmcs_mcp_server.Write.Intents.Expiry.{list_intents-IsListable, mem-list_intents, IsListable}
use whmcs_mcp_server.Write.Intents.Reopen.{
  StoreOp, put_op, transition_op, prune_op, apply_all, find-reopened,
}
use whmcs_mcp_server.Write.Ledger.{IdempotencyLedger, Recalled, open_ledger, seen, record_result}
use whmcs_mcp_server.Write.Ledger.Key.{TellsApart, key_material-TellsApart}
use whmcs_mcp_server.Write.Ledger.Window.{seen-record_result}
use whmcs_mcp_server.Write.Ledger.Restart.{Write, record_all, seen-restart}

abbrev drafted : WriteIntent
drafted = record {
  intent_id = "intent-1";
  consumer_id = "drafter";
  scope = billing_credit_add;
  action = "AddCredit";
  risk = scope_risk billing_credit_add;
  params = end;
  idempotency_key = "key-1";
  preconditions = end;
  projected_effect = "";
  confirmation = none;
  state = draft;
  created_at = 0;
  expires_at = 900;
  contract = none;
}

abbrev one_draft : IntentStore
one_draft = record {
  intents = ("intent-1", drafted) ∷ [];
  durable = true;
  snapshot = some (drafted ∷ []);
}

abbrev to_executed : List Request
to_executed = ("intent-1", validated) ∷ ("intent-1", approved) ∷ ("intent-1", executed) ∷ []

abbrev intent_with : WriteIntentState → WriteIntent
intent_with s = record drafted { state = s }

transition-moved_example :
    (((transition "intent-1" validated one_draft).0 ≡ moved (intent_with validated))
      ↔ IsLegal "intent-1" validated one_draft (intent_with validated))
    × ((transition "intent-1" validated one_draft).0 ≡ moved (intent_with validated)
        → (j : String)
        → find j (transition "intent-1" validated one_draft).1
          ≡ (if str_eq "intent-1" j then some (intent_with validated) else find j one_draft))
transition-moved_example = transition-moved "intent-1" validated one_draft (intent_with validated)

request_all-Way_example :
    (last : WriteIntent) × (find "intent-1" (request_all to_executed one_draft) ≡ some last)
    × (last ≡ record drafted { state = last.state })
    × Way draft (accepted "intent-1" to_executed one_draft) last.state
request_all-Way_example =
    request_all-Way "intent-1" to_executed one_draft drafted (unfold find JsMap.get in refl)

accepted_bound_example : length (accepted "intent-1" to_executed one_draft) ≤ 4
accepted_bound_example =
    accepted_bound "intent-1" to_executed one_draft drafted (unfold find JsMap.get in refl)

ends_executed : find "intent-1" (request_all to_executed one_draft) ≡ some (intent_with executed)
unfolding request_all find JsMap.get transition JsMap.set
ends_executed = refl

executed_needs_approval_example :
    accepted "intent-1" to_executed one_draft ≡ validated ∷ approved ∷ executed ∷ []
executed_needs_approval_example =
    executed_needs_approval "intent-1" to_executed one_draft drafted (intent_with executed)
      (unfold find JsMap.get in refl) refl ends_executed refl

mem-list_intents_example : Memᴰ drafted (list_intents 10 (some "drafter") one_draft).0
mem-list_intents_example =
    mem-list_intents 10 (some "drafter") one_draft "intent-1" drafted
      (unfold JsMap.get in (refl, tt)) (unfold find JsMap.get in refl) (omega arith, refl)

list_intents-IsListable_example :
    All (IsListable 10 (some "drafter")) (list_intents 10 (some "drafter") one_draft).0
list_intents-IsListable_example = list_intents-IsListable 10 (some "drafter") one_draft

abbrev some_ops : List StoreOp
some_ops = put_op drafted ∷ transition_op "intent-1" validated ∷ prune_op 10 ∷ []

find-reopened_example :
    find "intent-1" (open_store true (apply_all some_ops (open_store true none)).snapshot)
    ≡ find "intent-1" (apply_all some_ops (open_store true none))
find-reopened_example = find-reopened some_ops "intent-1"

-- A rendering of numbers in unary, as one that tells them apart.
abbrev tally : ℕ → String
tally zero = ""
tally (suc n) = Prim.Native.String.◌∷◌ "|" (tally n)

tally_injective : (m n : ℕ) → tally m ≡ tally n → m ≡ n
tally_injective zero zero e = refl
tally_injective zero (suc n) e = absurd (nil≢cons e)
tally_injective (suc m) zero e = absurd (cons≢nil e)
tally_injective (suc m) (suc n) e = ap suc (tally_injective m n (tail-eq_of_cons-eq e))

key_material-TellsApart_example :
    TellsApart
      (λ s. s)
      tally
      "drafter"
      "UpdateClientProduct"
      "7"
      300
      "service:price_restore"
      "service:domain_rename"
      10
      20
key_material-TellsApart_example =
    key_material-TellsApart (λ s. s) tally "drafter" "UpdateClientProduct" "7" 300 tally_injective
      "service:price_restore" "service:domain_rename" 10 20

abbrev ledger : IdempotencyLedger
ledger = record {
  entries = ("key-1", record { result = Recalled.live_result null; expires_at = 300 }) ∷ [];
  window_ms = 300;
  file = none;
}

seen-record_result_example :
    (seen "key-1" 450 (record_result "key-2" null 200 ledger)).0
    ≡ (if str_eq "key-2" "key-1" then ltb 450 (200 + 300) else (seen "key-1" 450 ledger).0)
seen-record_result_example = seen-record_result "key-2" "key-1" null 200 450 ledger

abbrev two_writes : List Write
two_writes =
    record { key = "key-1"; result = null; at = 10 }
    ∷ record { key = "key-2"; result = null; at = 20 }
    ∷ []

seen-restart_example :
    (seen "key-2" 310
      (open_ledger 300 50 (record_all two_writes (open_ledger 300 5 (some []))).file)).0
    ≡ (seen "key-2" 310 (record_all two_writes (open_ledger 300 5 (some [])))).0
seen-restart_example =
    seen-restart 300 5 50 310 two_writes "key-2" (omega arith, (omega arith, tt)) (omega arith)

-- Two lines of the day, one of the day before, and one that is torn.
abbrev day_file : List (Option DayAmountsRecord)
day_file =
    some (record { key = "AddCredit|d1"; total = some (pos 900); date = "d1" })
    ∷ some (record { key = "AddCredit|d2"; total = some (pos 100); date = "d2" })
    ∷ none
    ∷ []

abbrev day_store : DayAmountsStore
day_store = add_all (("AddCredit", pos 50) ∷ []) "d2" (open_amounts "d2" (some day_file))

get_total-restart_example :
    get_total "AddCredit" "d2" (open_amounts "d2" day_store.file)
    ≡ get_total "AddCredit" "d2" day_store
get_total-restart_example = get_total-restart "d2" "AddCredit" day_file (("AddCredit", pos 50) ∷ [])
