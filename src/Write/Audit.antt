-- ===== src/Write/Audit.antt =====
-- src/write/audit.ts: the append-only audit log. Whether a line could be written and synced is an
-- argument of the two ways to append. The file is the list of its lines, `none` where a line does
-- not parse; a line that could not be written leaves the file as it was.
pub mod Reload
use whmcs_mcp_server.Prelude.{
  String, Bool, true, false, Option, none, some, List, [], ◌∷◌, ◌++◌, str_eq, if◌then◌else◌,
}
use whmcs_mcp_server.Write.Scopes.{WriteScope}
use whmcs_mcp_server.Write.Types.{WriteIntent}

pub data AuditEventType : Type 0 where
  intent_drafted intent_validated intent_rejected intent_approved : AuditEventType
  intent_execution_blocked intent_executed intent_verified intent_failed : AuditEventType

pub record AuditEvent : Type 0 where
  pub event : AuditEventType
  pub intent_id : String
  pub consumer_id : String
  pub scope : WriteScope
  pub action : String
  pub idempotency_key : String
  pub at : String
  pub detail : Option String

unfoldable pub audit_event : AuditEventType → WriteIntent → Option String → String → AuditEvent
audit_event type intent detail at = record {
  event = type;
  intent_id = intent.intent_id;
  consumer_id = intent.consumer_id;
  scope = intent.scope;
  action = intent.action;
  idempotency_key = intent.idempotency_key;
  at = at;
  detail = detail;
}

pub record AuditLog : Type 0 where
  pub events : List AuditEvent
  -- The file's lines, if there is a file.
  pub file : Option (List (Option AuditEvent))

abbrev pub add_line :
    AuditEvent → Option (List (Option AuditEvent)) → Option (List (Option AuditEvent))
add_line e none = none
add_line e (some lines) = some (lines ++ some e ∷ [])

-- A line that cannot be written is ignored.
unfoldable pub append : Bool → AuditEvent → AuditLog → AuditLog
append written e log = record log {
  events = log.events ++ e ∷ [];
  file = if written then add_line e log.file else log.file;
}

-- Without a file nothing can fail.
abbrev pub is_written : Bool → Option (List (Option AuditEvent)) → Bool
is_written written none = true
is_written written (some lines) = written

-- `none` where an `AuditPersistError` is thrown.
unfoldable pub append_durable : Bool → AuditEvent → AuditLog → Option AuditLog
append_durable written e log =
    if is_written written log.file
    then some (record { events = log.events ++ e ∷ []; file = add_line e log.file })
    else none

unfoldable pub for_intent : String → List AuditEvent → List AuditEvent
for_intent id [] = []
for_intent id (e ∷ es) =
    let rest = for_intent id es in if str_eq e.intent_id id then e ∷ rest else rest

-- `loadFromDisk`: a line that does not parse is skipped.
unfoldable pub load_lines : List (Option AuditEvent) → List AuditEvent
load_lines [] = []
load_lines (none ∷ lines) = load_lines lines
load_lines (some e ∷ lines) = e ∷ load_lines lines

abbrev pub lines_of : Option (List (Option AuditEvent)) → List (Option AuditEvent)
lines_of none = []
lines_of (some lines) = lines

unfoldable pub open_log : Option (List (Option AuditEvent)) → AuditLog
unfolding load_lines
open_log file = record { events = load_lines (lines_of file); file = file }
