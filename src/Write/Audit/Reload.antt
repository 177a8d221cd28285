-- ===== src/Write/Audit/Reload.antt =====
-- src/write/audit.ts: the trail that a restart reads back.
use whmcs_mcp_server.Prelude.{
  ◌≡◌, subst, refl, sym, ap, ◌∙◌, Bool, Option, none, some, List, [], ◌∷◌, ◌++◌, arith,
  if◌then◌else◌, Bool-cases, inl, inr,
}
use mathlib.Core.List.{append-nil, append_assoc}
use whmcs_mcp_server.Write.Audit.{
  AuditEvent, AuditLog, append, append_durable, lines_of, load_lines, open_log,
}

-- One call of the log: what the disk answers, whether the call is `appendDurable`, and the event.
pub record Append : Type 0 where
  pub written : Bool
  pub durably : Bool
  pub event : AuditEvent

abbrev or_same : Option AuditLog → AuditLog → AuditLog
or_same none log = log
or_same (some log') log = log'

unfoldable pub perform : Append → AuditLog → AuditLog
unfolding append append_durable
perform a log =
    if a.durably
    then or_same (append_durable a.written a.event log) log
    else append a.written a.event log

unfoldable pub perform_all : List Append → AuditLog → AuditLog
unfolding perform
perform_all [] log = log
perform_all (a ∷ rest) log = perform_all rest (perform a log)

-- The events of the calls whose line was written.
abbrev pub written_events : List Append → List AuditEvent
written_events [] = []
written_events (a ∷ rest) =
    let later = written_events rest in if a.written then a.event ∷ later else later

load_lines-append :
    (xs : List (Option AuditEvent)) (e : AuditEvent)
    → load_lines (xs ++ some e ∷ []) ≡ load_lines xs ++ e ∷ []
unfolding load_lines
load_lines-append [] e = refl
load_lines-append (none ∷ xs) e = load_lines-append xs e
load_lines-append (some x ∷ xs) e = ap (λ es. x ∷ es) (load_lines-append xs e)

-- One call adds its line to the file if it was written, and changes nothing in it otherwise.
perform-file :
    (a : Append) (log : AuditLog) (lines : List (Option AuditEvent))
    → log.file ≡ some lines
    → (perform a log).file ≡ some (if a.written then lines ++ some a.event ∷ [] else lines)
unfolding perform append append_durable
perform-file a log lines h = ground arith

-- What is read back from a file after any calls of the log, durable and best-effort, whichever
-- writes succeeded: all that stood in the file before, then the events of the calls whose line was
-- written, in the order of the calls.
pub open_log-perform_all :
    (calls : List Append) (log : AuditLog) (lines : List (Option AuditEvent))
    → log.file ≡ some lines
    → (open_log (perform_all calls log).file).events
      ≡ (open_log (some lines)).events ++ written_events calls
unfolding perform_all open_log
open_log-perform_all [] log lines h =
    subst (λ f. load_lines (lines_of f) ≡ load_lines lines ++ []) (sym h)
      (sym (append-nil (load_lines lines)))
open_log-perform_all (a ∷ rest) log lines h = elim (Bool-cases a.written) [
  | inl w ↦
      open_log-perform_all rest (perform a log) (lines ++ some a.event ∷ [])
        (perform-file a log lines h ∙ ground arith)
      ∙ ap (λ es. es ++ written_events rest) (load_lines-append lines a.event)
      ∙ append_assoc (load_lines lines) (a.event ∷ []) (written_events rest)
      ∙ ap (λ es. load_lines lines ++ es) (ground arith)
  | inr n ↦
      open_log-perform_all rest (perform a log) lines (perform-file a log lines h ∙ ground arith)
      ∙ ap (λ es. load_lines lines ++ es) (ground arith)
]
