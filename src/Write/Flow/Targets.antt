-- ===== src/Write/Flow/Targets.antt =====
-- src/tools/writeFlow.ts: the targets of a batch of price restores, what became of them, and the
-- caps. A target's amount is a number, as the validation of the intent has checked.
use whmcs_mcp_server.Prelude.{
  ℤ, pos, ◌-ℤ◌, String, Bool, true, ◌||◌, Option, none, some, List, [], ◌∷◌,
}
use whmcs_mcp_server.Prelude.JsNumber.{
  JsNumber, nan, infinity, neg_infinity, finite, num_zero, lt, le, plus,
}
use whmcs_mcp_server.Json.{Json, boolean, number, object, Fields, field, end, property}
use whmcs_mcp_server.Write.Types.{ExecutionDeniedReason, HighRiskCaps}
use whmcs_mcp_server.Write.Mapping.Values.{as_record}

pub record Target : Type 0 where
  pub serviceid : Json
  pub new_amount : JsNumber
  pub expected_old_amount : Option JsNumber

abbrev or_null : Option Json → Json
or_null none = Json.null
or_null (some v) = v

abbrev as_number : Option Json → JsNumber
as_number (some (number n)) = n
as_number _ = nan

abbrev as_optional_number : Option Json → Option JsNumber
as_optional_number none = none
as_optional_number (some v) = some (as_number (some v))

abbrev pub target_of : Fields → Target
target_of t = record {
  serviceid = or_null (property "serviceid" t);
  new_amount = as_number (property "new_amount" t);
  expected_old_amount = as_optional_number (property "expected_old_amount" t);
}

abbrev pub targets_of_items : List Json → List Target
targets_of_items [] = []
targets_of_items (v ∷ vs) = target_of (as_record v) ∷ targets_of_items vs

-- A target that passed, with its current amount: `targets[i]` and `snapshots[i]`.
pub record Snapshot : Type 0 where
  pub target : Target
  pub current_amount : ℤ

pub data TargetStatus : Type 0 where
  target_verified target_executed target_failed target_skipped : TargetStatus

pub record TargetOutcome : Type 0 where
  pub serviceid : Json
  pub status : TargetStatus
  pub old_amount : ℤ
  pub new_amount : JsNumber
  pub delta : JsNumber

pub record BatchResult : Type 0 where
  pub allowed : Bool
  pub reason : Option ExecutionDeniedReason
  pub dry_run : Bool
  pub snapshots : List Snapshot
  pub failed_targets : List Json
  pub outcomes : List TargetOutcome
  pub halted_after : Option Json

abbrev pub magnitude : ℤ → ℤ
magnitude (pos n) = pos n
magnitude (ℤ.negsuc n) = pos (Prim.Native.Nat.suc n)

-- `Math.abs(a - b)`, for a finite b.
unfoldable pub distance : JsNumber → ℤ → JsNumber
distance (finite a) b = finite (magnitude (a -ℤ b))
distance nan b = nan
distance infinity b = infinity
distance neg_infinity b = infinity

-- `{ attempting: true }`
abbrev pub attempting_mark : Json
attempting_mark = object (field "attempting" (boolean true) end)

abbrev pub batch_action : String
batch_action = "UpdateClientProduct"

-- The test of the caps, where a cap that is not above 0 denies.
unfoldable pub exceeds_caps : HighRiskCaps → JsNumber → JsNumber → Bool
exceeds_caps caps running delta =
    le caps.per_action num_zero
    || le caps.daily num_zero
    || lt caps.per_action delta
    || lt caps.daily (plus running delta)
