-- ===== src/Write/Ledger/Window.antt =====
-- Look-ups of the ledger over time.
use whmcs_mcp_server.Prelude.{
  ℕ, ◌+◌, ◌≤◌, String, ◌≡◌, Bool, false, not, Option, none, some, str_eq, ltb, leb, arith,
  if◌then◌else◌, eq_iff,
}
use whmcs_mcp_server.Prelude.JsMap
use whmcs_mcp_server.Prelude.JsMap.{HasUniqueKeys, get-set, get-delete, get-keep}
use whmcs_mcp_server.Json.{Json}
use whmcs_mcp_server.Write.Ledger.{LedgerEntry, IdempotencyLedger, seen, record_result, prune}

-- The entry is there and inside its window.
abbrev pub is_alive : ℕ → Option LedgerEntry → Bool
is_alive now none = false
is_alive now (some e) = ltb now e.expires_at

pub seen-is_alive :
    (key : String) (now : ℕ) (l : IdempotencyLedger)
    → (seen key now l).0 ≡ is_alive now (JsMap.get key l.entries)
unfolding seen
seen-is_alive key now l = ground arith

-- After a key is recorded it is a replay exactly until the window ends; what is seen of any other
-- key does not change.
pub seen-record_result :
    (key j : String) (result : Json) (now later : ℕ) (l : IdempotencyLedger)
    → (seen j later (record_result key result now l)).0
      ≡ (if str_eq key j then ltb later (now + l.window_ms) else (seen j later l).0)
unfolding record_result
seen-record_result key j result now later l = simp (seen-is_alive, get-set) (ground arith)

-- Pruning a ledger with distinct keys at a time changes no answer from that time on.
pub seen-prune :
    (j : String) (now later : ℕ) (l : IdempotencyLedger)
    → HasUniqueKeys l.entries
    → now ≤ later
    → (seen j later (prune now l)).0 ≡ (seen j later l).0
unfolding prune
seen-prune j now later l u h =
    simp seen-is_alive
      (ground (arith, get-keep (λ entry. not (leb entry.expires_at now)) j l.entries u))

-- Looking up a key, which deletes the key's entry if it has expired, changes no answer from that
-- time on.
pub seen-seen :
    (key j : String) (now later : ℕ) (l : IdempotencyLedger)
    → now ≤ later
    → (seen j later (seen key now l).1).0 ≡ (seen j later l).0
unfolding seen
seen-seen key j now later l h = ground (arith, eq_iff key j, get-delete key j l.entries)
