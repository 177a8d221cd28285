-- ===== src/Write/Flow/Samples.antt =====
-- src/tools/writeFlow.ts: the data of the tests: one service, an intent on it, and a state.
use whmcs_mcp_server.Prelude.{ℕ, suc, pos, true, false, none, some, [], ◌∷◌}
use whmcs_mcp_server.Prelude.JsNumber.{nan, finite}
use whmcs_mcp_server.Json.{number, array, object, nil, cons, Fields, end, field}
use whmcs_mcp_server.Write.Scopes.{WriteScope, client_note_write, scope_action, scope_risk}
use whmcs_mcp_server.Write.Types.{WriteIntent, WriteIntentState, approved, staging, full}
use whmcs_mcp_server.Write.Mapping.Values.{Js}
use whmcs_mcp_server.Write.Flow.Program.{Api, Flow, Config}

abbrev pub js : Js
js = record {
  show = λ n. "1";
  show_number = λ n. "2";
  show_value = λ v. "7";
  to_number = λ v. nan;
  is_integer = λ n. true;
  trim = λ s. s;
  lower_case = λ s. s;
  ends_with_dot = λ s. false;
  drop_last = λ s. s;
  is_digits = λ s. false;
  join_by_commas = λ vs. "7";
  string_of = λ v. some "7";
  number_of_value = λ v. some nan;
  join = λ vs. some "7";
  byte_length = λ s. 3;
  base64 = λ s. s;
  short_hash = λ s. s;
}

-- One service, at 1000.
abbrev pub response : Fields
response =
    field "products"
      (object (
        field "product"
          (array (cons (object (field "recurringamount" (number (finite (pos 1000))) end)) nil))
          end))
      end

abbrev pub api : Api ℕ
api = record {
  read = λ action params w. (some response, suc w);
  mutate = λ action params w. (none, suc w);
  write_line = λ e w. (true, w);
  clock = λ w. 100;
  iso = λ n. "now";
  utc_day = λ n. "today";
}

abbrev pub config : Config
config = record {
  env = staging;
  mcp_mode = full;
  kill_switch = false;
  runtime_authorized_actions = [];
  prod_authorized_actions = [];
  strict_allowlist = false;
  strict_scopes = [];
  require_distinct_approver = true;
  destructive_confirm_phrase = "";
  allowed_destructive_scopes = [];
  caps = record { per_action = finite (pos 500); daily = finite (pos 800) };
}

abbrev pub targets : Fields
targets =
    field "targets"
      (array (
        cons
          (object (
            field "serviceid" (number (finite (pos 7)))
              (field "new_amount" (number (finite (pos 1200))) end)))
          nil))
      end

abbrev pub intent_of : WriteScope → WriteIntentState → WriteIntent
intent_of scope state = record {
  intent_id = "intent-1";
  consumer_id = "drafter";
  scope = scope;
  action = scope_action scope;
  risk = scope_risk scope;
  params = targets;
  idempotency_key = "key-1";
  preconditions = end;
  projected_effect = "";
  confirmation = none;
  state = state;
  created_at = 0;
  expires_at = 900;
  contract = none;
}

abbrev pub flow_of : WriteIntent → Flow ℕ
flow_of intent = record {
  whmcs = 0;
  store = record { intents = ("intent-1", intent) ∷ []; durable = false; snapshot = none };
  ledger = record { entries = []; window_ms = 1000; file = none };
  approvals = [];
  day_amounts = record { totals = []; file = none };
  audit = record { events = []; file = some [] };
  effects = [];
}

abbrev pub note : WriteIntent
note = intent_of client_note_write approved
