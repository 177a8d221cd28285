-- ===== src/Write/Flow/PriceRestore.antt =====
-- src/tools/writeFlow.ts: `executePriceRestoreBatch`, in two phases.
pub mod Rounds
pub mod Caps
pub mod Batch
use whmcs_mcp_server.Prelude.{
  ℤ, pos, ◌-ℤ◌, ltb_ℤ, String, Bool, true, false, not, ◌&&◌, ◌||◌, Option, none, some, List, [],
  ◌∷◌, ◌++◌, ◌⊕◌, if◌then◌else◌,
}
use whmcs_mcp_server.Prelude.JsNumber.{
  JsNumber, nan, infinity, neg_infinity, finite, num_zero, lt, le, plus, strict_eq,
}
use whmcs_mcp_server.Json.{Json, boolean, number, object, Fields, field, end, property}
use whmcs_mcp_server.Write.Types.{
  WriteIntent, ExecutionDeniedReason, precondition_mismatch, target_amount_cap_exceeded,
  target_output_assertion_failed, audit_write_failed, HighRiskCaps,
}
use whmcs_mcp_server.Write.DayAmounts.{get_total}
use whmcs_mcp_server.Write.Audit.{
  intent_execution_blocked, intent_executed, intent_failed, intent_verified,
}
use whmcs_mcp_server.Write.Mapping.Values.{Js, Output, as_record, array_or_empty, is_exactly_true}
use whmcs_mcp_server.Write.Mapping.Services.{
  map_service_price_restore_target, price_restore_recurring_field,
}
use whmcs_mcp_server.Write.Flow.Program.{
  Api, M, pure, gets, ◌>>=◌, ◌>>◌, read, mutate, append_event, append_event_durable, add_amount,
  record_key, is_replay,
}
use whmcs_mcp_server.Write.Flow.Amounts.{number_of}
use whmcs_mcp_server.Write.Flow.Assertions.{assert_price_restore_output}
use whmcs_mcp_server.Write.Flow.Products.{first_product, is_closed}
use whmcs_mcp_server.Write.Flow.Targets.{
  Target, target_of, targets_of_items, Snapshot, TargetStatus, TargetOutcome, BatchResult,
  magnitude, distance, attempting_mark, batch_action, exceeds_caps, target_verified,
  target_executed, target_failed, target_skipped,
}

module _ {W : Type 0} (api : Api W) (js : Js) (caps : HighRiskCaps) (intent : WriteIntent) where
  abbrev pub target_key : Target → String
  target_key t = intent.idempotency_key ⊕ "|" ⊕ js.show_value t.serviceid

  abbrev pub target_query : Target → Output
  target_query t = ("serviceid", some t.serviceid) ∷ []

  -- A finite amount that is not below 0.
  abbrev pub current_of : JsNumber → Option ℤ
  current_of (finite a) = if ltb_ℤ a (pos 0) then none else some a
  current_of _ = none

  abbrev pub amount_field : Fields → JsNumber
  amount_field p = number_of js (property price_restore_recurring_field p)

  abbrev pub current_of_product : Option Fields → Option ℤ
  current_of_product none = none
  current_of_product (some p) = if is_closed p then none else current_of (amount_field p)

  abbrev pub current_of_response : Option Fields → Option ℤ
  current_of_response none = none
  current_of_response (some resp) = current_of_product (first_product resp)

  abbrev pub is_expected : Option JsNumber → ℤ → Bool
  is_expected none current = true
  is_expected (some expected) current = strict_eq expected (finite current)

  -- A target that was attempted before need not have its expected amount.
  abbrev pub check_expected : Target → Bool → Option ℤ → Option Snapshot
  check_expected t already_done none = none
  check_expected t already_done (some current) =
      if already_done || is_expected t.expected_old_amount current
      then some (record { target = t; current_amount = current })
      else none

  unfoldable pub take_snapshot : Target → M W (Option Snapshot)
  unfolding first_product is_closed
  take_snapshot t = do
    resp ← read api "GetClientsProducts" (target_query t)
    already_done ← gets (λ st. is_replay api st (target_key t))
    pure (check_expected t already_done (current_of_response resp))

  abbrev pub add_snapshot :
      Target → Option Snapshot → List Snapshot × List Json → List Snapshot × List Json
  add_snapshot t none (done, failed) = (done, t.serviceid ∷ failed)
  add_snapshot t (some s) (done, failed) = (s ∷ done, failed)

  -- Phase 1: the snapshots, and the targets that failed, in the order of the targets.
  unfoldable pub take_snapshots : List Target → M W (List Snapshot × List Json)
  unfolding take_snapshot
  take_snapshots [] = pure ([], [])
  take_snapshots (t ∷ ts) = do
    s ← take_snapshot t
    rest ← take_snapshots ts
    pure (add_snapshot t s rest)

  abbrev pub outcome_of : Snapshot → TargetStatus → JsNumber → TargetOutcome
  outcome_of s status delta = record {
    serviceid = s.target.serviceid;
    status = status;
    old_amount = s.current_amount;
    new_amount = s.target.new_amount;
    delta = delta;
  }

  -- A result of phase 2; the snapshots are added by the caller.
  abbrev pub stopped : ExecutionDeniedReason → List TargetOutcome → Snapshot → BatchResult
  stopped reason outcomes s = record {
    allowed = false;
    reason = some reason;
    dry_run = false;
    snapshots = [];
    failed_targets = [];
    outcomes = outcomes;
    halted_after = some s.target.serviceid;
  }

  abbrev pub finished : List TargetOutcome → Option Json → BatchResult
  finished outcomes halted = record {
    allowed = true;
    reason = none;
    dry_run = false;
    snapshots = [];
    failed_targets = [];
    outcomes = outcomes;
    halted_after = halted;
  }

  -- The rest of phase 2, from the running total and the outcomes so far.
  abbrev pub Rest : Type 0
  Rest = JsNumber → List TargetOutcome → M W BatchResult

  abbrev pub amount_became : Target → Option Fields → Bool
  amount_became t none = false
  amount_became t (some p) = strict_eq (amount_field p) t.new_amount

  abbrev pub amount_read_back : Target → Option Fields → Bool
  amount_read_back t none = false
  amount_read_back t (some resp) = amount_became t (first_product resp)

  abbrev pub target_text : String → Target → String → String
  target_text before t after = before ⊕ js.show_value t.serviceid ⊕ after

  -- After the call of a target.
  unfoldable pub settle_target :
      Snapshot → JsNumber → JsNumber → List TargetOutcome → Rest → Option String → M W BatchResult
  unfolding first_product
  settle_target s delta running outcomes rest (some message) = do
    append_event api intent_failed intent
        (some (target_text "serviceid=" s.target (": " ⊕ message)))
    pure (finished (outcomes ++ outcome_of s target_failed delta ∷ []) (some s.target.serviceid))
  settle_target s delta running outcomes rest none = do
    resp ← read api "GetClientsProducts" (target_query s.target)
    add_amount api batch_action delta
    append_event api (if amount_read_back s.target resp then intent_verified else intent_executed)
        intent
        (some (
          target_text "serviceid=" s.target (
            " "
            ⊕ js.show_number (finite s.current_amount)
            ⊕ "→"
            ⊕ js.show_number s.target.new_amount)))
    rest (plus running delta) (
        outcomes
        ++ outcome_of s
            (if amount_read_back s.target resp then target_verified else target_executed) delta
          ∷ [])

  unfoldable pub run_target :
      Snapshot → JsNumber → JsNumber → List TargetOutcome → Rest → Bool → M W BatchResult
  unfolding settle_target
  run_target s delta running outcomes rest false = pure (stopped audit_write_failed outcomes s)
  run_target s delta running outcomes rest true = do
    record_key api (target_key s.target) attempting_mark
    thrown ←
        mutate api batch_action
          (map_service_price_restore_target s.target.serviceid (number s.target.new_amount))
    settle_target s delta running outcomes rest thrown

  abbrev pub unless_leaking :
      Snapshot → JsNumber → JsNumber → List TargetOutcome → Rest → Option String → M W BatchResult
  unless_leaking s delta running outcomes rest (some message) = do
    append_event api intent_execution_blocked intent
        (some (target_text "target_output_assertion_failed serviceid=" s.target (": " ⊕ message)))
    pure (stopped target_output_assertion_failed outcomes s)
  unless_leaking s delta running outcomes rest none = do
    done ← append_event_durable api intent_executed intent (
        some
          (target_text "attempting target serviceid=" s.target (" delta=" ⊕ js.show_number delta)))
    run_target s delta running outcomes rest done

  -- One round of the loop of phase 2.
  unfoldable pub restore_target :
      Snapshot → JsNumber → List TargetOutcome → Rest → Bool → M W BatchResult
  unfolding distance exceeds_caps run_target assert_price_restore_output
      map_service_price_restore_target
  restore_target s running outcomes rest true = do
    append_event api intent_executed intent
        (some (target_text "replay_skipped serviceid=" s.target ""))
    rest running (
        outcomes
        ++ outcome_of s target_skipped (distance s.target.new_amount s.current_amount) ∷ [])
  restore_target s running outcomes rest false =
      let delta = distance s.target.new_amount s.current_amount in
      if exceeds_caps caps running delta
      then (do
        append_event api intent_execution_blocked intent (
            some (
              target_text "target_amount_cap_exceeded serviceid=" s.target
                (" delta=" ⊕ js.show_number delta)))
        pure (stopped target_amount_cap_exceeded outcomes s))
      else unless_leaking s delta running outcomes rest (
          assert_price_restore_output
            (map_service_price_restore_target s.target.serviceid (number s.target.new_amount)))

  -- Phase 2.
  unfoldable pub restore_targets : List Snapshot → JsNumber → List TargetOutcome → M W BatchResult
  unfolding restore_target
  restore_targets [] running outcomes = pure (finished outcomes none)
  restore_targets (s ∷ ss) running outcomes = do
    seen_before ← gets (λ st. is_replay api st (target_key s.target))
    restore_target s running outcomes (restore_targets ss) seen_before

  abbrev pub is_nil : List Json → Bool
  is_nil [] = true
  is_nil (v ∷ vs) = false

  abbrev pub not_run : Bool → Option ExecutionDeniedReason → List Snapshot → List Json → BatchResult
  not_run dry reason snapshots failed = record {
    allowed = dry;
    reason = reason;
    dry_run = dry;
    snapshots = snapshots;
    failed_targets = failed;
    outcomes = [];
    halted_after = none;
  }

  unfoldable pub after_snapshots : List Snapshot × List Json → M W BatchResult
  unfolding restore_targets
  after_snapshots (snapshots, v ∷ vs) = do
    append_event api intent_execution_blocked intent
        (some ("precondition_mismatch: failedTargets=" ⊕ js.join_by_commas (v ∷ vs)))
    pure (not_run false (some precondition_mismatch) snapshots (v ∷ vs))
  after_snapshots (snapshots, []) =
      if is_exactly_true (property "dry_run" intent.params)
      then (do
        append_event api intent_execution_blocked intent (some "dry_run_completed")
        pure (not_run true none snapshots []))
      else (do
        running ←
            gets (λ st. get_total batch_action (api.utc_day (api.clock st.whmcs)) st.day_amounts)
        r ← restore_targets snapshots running []
        pure (record r { snapshots = snapshots; failed_targets = [] }))

  unfoldable pub execute_price_restore_batch : M W BatchResult
  unfolding take_snapshots after_snapshots
  execute_price_restore_batch = do
    taken ← take_snapshots (targets_of_items (array_or_empty (property "targets" intent.params)))
    after_snapshots taken
