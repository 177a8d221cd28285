-- ===== src/Write/Ledger.antt =====
-- src/write/idempotency.ts: idempotency keys, and the ledger that refuses a replay inside its
-- window. The clock's reading is an argument, in milliseconds. The hash and JavaScript's
-- `String(n)` are parameters. The ledger's file is the list of the lines appended to it: a line is
-- the record that it parses to, or `none` where it does not parse. Writing to the file succeeds.
pub mod Key
pub mod Window
pub mod Restart
use whmcs_mcp_server.Prelude.{
  ◌⊕◌, ℕ, ◌+◌, ◌*◌, ◌/◌, String, Bool, true, false, Option, none, some, List, [], ◌∷◌, ◌++◌, ltb,
  leb, not, if◌then◌else◌,
}
use whmcs_mcp_server.Prelude.JsMap
use whmcs_mcp_server.Prelude.JsMap.{JsMap}
use whmcs_mcp_server.Json.{Json, null, boolean, number, text, array, object, Fields, property}

abbrev pub default_window_ms : ℕ
default_window_ms = 5 * 60 * 1000

unfoldable pub window_width : ℕ → ℕ
window_width window_ms = if ltb 0 window_ms then window_ms else default_window_ms

-- The text that is hashed.
unfoldable pub key_material :
    (ℕ → String) → (consumer_id action scope natural_key : String) (window_ms now_ms : ℕ) → String
unfolding window_width
key_material show consumer_id action scope natural_key window_ms now_ms =
    consumer_id
    ⊕ " "
    ⊕ action
    ⊕ " "
    ⊕ scope
    ⊕ " "
    ⊕ natural_key
    ⊕ " "
    ⊕ show (now_ms / window_width window_ms)

module _ (sha256 : String → String) (show : ℕ → String) where
  -- The parts joined by single spaces, then hashed.
  unfoldable pub idempotency_key :
      (consumer_id action scope natural_key : String) (window_ms now_ms : ℕ) → String
  unfolding key_material
  idempotency_key consumer_id action scope natural_key window_ms now_ms =
      sha256 (key_material show consumer_id action scope natural_key window_ms now_ms)

-- The redacted summary of a result, the only part of it that is written to disk.
pub record PersistedReplay : Type 0 where
  pub intent_id : String
  pub action : String
  pub scope : String
  pub executed : Bool
  pub verified : Bool
  pub at : ℕ

-- `typeof v === 'string' ? v : ''`
abbrev pub text_or_blank : Option Json → String
text_or_blank (some (text s)) = s
text_or_blank _ = ""

-- `v === true`
abbrev pub is_json_true : Option Json → Bool
is_json_true (some (boolean b)) = b
is_json_true _ = false

abbrev pub verified_of : Option Json → Bool
verified_of (some (object exec)) = is_json_true (property "verified" exec)
verified_of _ = false

abbrev replay_of : Fields → Fields → ℕ → Option Json → Option PersistedReplay
replay_of r i at (some (text id)) = some (record {
  intent_id = id;
  action = text_or_blank (property "action" i);
  scope = text_or_blank (property "scope" i);
  executed = is_json_true (property "executed" r);
  verified = verified_of (property "execution" r);
  at = at;
})
replay_of r i at _ = none

abbrev replay_of_intent : Fields → ℕ → Option Json → Option PersistedReplay
replay_of_intent r at (some (object i)) = replay_of r i at (property "intent_id" i)
replay_of_intent r at _ = none

unfoldable pub to_persisted_replay : Json → ℕ → Option PersistedReplay
to_persisted_replay (object r) at = replay_of_intent r at (property "intent" r)
to_persisted_replay _ at = none

-- What `getResult` can recall: a result of this run, or the summary that a restart read back.
pub data Recalled : Type 0 where
  live_result : Json → Recalled
  replayed : Option PersistedReplay → Recalled

pub record LedgerEntry : Type 0 where
  pub result : Recalled
  pub expires_at : ℕ

pub record Line : Type 0 where
  pub key : String
  pub expires_at : ℕ
  pub replay : Option PersistedReplay

pub record IdempotencyLedger : Type 0 where
  pub entries : JsMap LedgerEntry
  pub window_ms : ℕ
  -- The file's lines, if there is a file.
  pub file : Option (List (Option Line))

-- The constructor's loop over the lines: the last line of a key wins, expired lines are dropped.
load_line : ℕ → Line → JsMap LedgerEntry → JsMap LedgerEntry
load_line now line entries =
    if ltb now line.expires_at
    then JsMap.set line.key (record { result = replayed line.replay; expires_at = line.expires_at })
        entries
    else entries

load_lines : ℕ → List (Option Line) → JsMap LedgerEntry → JsMap LedgerEntry
load_lines now [] entries = entries
load_lines now (none ∷ lines) entries = load_lines now lines entries
load_lines now (some line ∷ lines) entries = load_lines now lines (load_line now line entries)

abbrev lines_of : Option (List (Option Line)) → List (Option Line)
lines_of none = []
lines_of (some lines) = lines

unfoldable pub open_ledger : ℕ → ℕ → Option (List (Option Line)) → IdempotencyLedger
unfolding load_lines load_line window_width JsMap.set
open_ledger window_ms now file = record {
  entries = load_lines now (lines_of file) [];
  window_ms = window_width window_ms;
  file = file;
}

-- `live`: an expired entry is deleted when it is looked up.
live_entry :
    Option LedgerEntry → String → ℕ → IdempotencyLedger → Option LedgerEntry × IdempotencyLedger
live_entry none key now l = (none, l)
live_entry (some entry) key now l =
    if leb entry.expires_at now
    then (none, record l { entries = JsMap.delete key l.entries })
    else (some entry, l)

unfoldable pub live : String → ℕ → IdempotencyLedger → Option LedgerEntry × IdempotencyLedger
unfolding live_entry
live key now l = live_entry (JsMap.get key l.entries) key now l

abbrev is_there {ℓ} : {A : Type ℓ} → Option A → Bool
is_there none = false
is_there (some a) = true

unfoldable pub seen : String → ℕ → IdempotencyLedger → Bool × IdempotencyLedger
unfolding live
seen key now l = let (found, l') = live key now l in (is_there found, l')

abbrev result_of : Option LedgerEntry → Option Recalled
result_of none = none
result_of (some e) = some e.result

unfoldable pub get_result : String → ℕ → IdempotencyLedger → Option Recalled × IdempotencyLedger
unfolding live
get_result key now l = let (found, l') = live key now l in (result_of found, l')

abbrev append_line : Option (List (Option Line)) → Line → Option (List (Option Line))
append_line none line = none
append_line (some lines) line = some (lines ++ some line ∷ [])

unfoldable pub record_result : String → Json → ℕ → IdempotencyLedger → IdempotencyLedger
unfolding to_persisted_replay
record_result key result now l =
    let expires_at = now + l.window_ms in
    record l {
      entries =
          JsMap.set key (record { result = live_result result; expires_at = expires_at }) l.entries;
      file =
          append_line l.file (record {
            key = key;
            expires_at = expires_at;
            replay = to_persisted_replay result now;
          });
    }

unfoldable pub prune : ℕ → IdempotencyLedger → IdempotencyLedger
prune now l = record l { entries = JsMap.keep (λ entry. not (leb entry.expires_at now)) l.entries }
