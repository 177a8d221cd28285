-- ===== src/Write/Flow/PriceRestore/Batch.antt =====
-- src/tools/writeFlow.ts: a whole batch of price restores, from its first read to its last call.
use whmcs_mcp_server.Prelude.{ℤ, String, ◌≡◌, ◌≢◌, true, false, List, [], ◌∷◌, ◌⊎◌}
use whmcs_mcp_server.Prelude.JsNumber.{JsNumber, finite}
use whmcs_mcp_server.Json.{Json, property}
use whmcs_mcp_server.Write.Types.{WriteIntent}
use whmcs_mcp_server.Write.DayAmounts.{get_total}
use whmcs_mcp_server.Write.Mapping.Values.{Js, array_or_empty, is_exactly_true}
use whmcs_mcp_server.Write.Flow.Program.{Api, Flow, M, Outcome, ok, pure, ◌>>=◌}
use whmcs_mcp_server.Write.Flow.Targets.{
  Target, Snapshot, BatchResult, batch_action, targets_of_items,
}
use whmcs_mcp_server.Write.Flow.PriceRestore.{restore_targets}
use whmcs_mcp_server.Write.Flow.PriceRestore.Rounds.{Rounds}

abbrev pub targets_of : List Snapshot → List Target
targets_of [] = []
targets_of (s ∷ ss) = s.target ∷ targets_of ss

abbrev pub HasFiniteTargets : List Target → Type 0
HasFiniteTargets [] = Unit
HasFiniteTargets (t ∷ ts) = ((a : ℤ) × (t.new_amount ≡ finite a)) × HasFiniteTargets ts

module _ {W : Type 0} (api : Api W) (js : Js) (per_action daily : ℤ) (intent : WriteIntent) where
  abbrev caps : whmcs_mcp_server.Write.Types.HighRiskCaps
  caps = record { per_action = finite per_action; daily = finite daily }

  abbrev targets : List Target
  targets = targets_of_items (array_or_empty (property "targets" intent.params))

  -- Either nothing was run, and the daily amounts and the effects are as before; or every target
  -- passed, the intent is no dry run, and the rounds go from the total of a day.
  abbrev pub IsBatchEnd : Flow W → Outcome BatchResult × Flow W → Type 0
  IsBatchEnd st p =
      (r : BatchResult) × (p.0 ≡ ok r)
      × ((((is_exactly_true (property "dry_run" intent.params) ≡ true) ⊎ (r.failed_targets ≢ []))
            × (r.outcomes ≡ [])
            × (p.1.effects ≡ st.effects)
            × (p.1.day_amounts ≡ st.day_amounts))
          ⊎ ((is_exactly_true (property "dry_run" intent.params) ≡ false)
              × (r.failed_targets ≡ [])
              × (targets_of r.snapshots ≡ targets)
              × (day : String) × (total : ℤ) × (get_total batch_action day st.day_amounts
                  ≡ finite total)
              × Rounds per_action daily intent total st.effects st.day_amounts r.outcomes
                  p.1.effects p.1.day_amounts))

  -- Phase 2, from the total that the store of daily amounts answers.
  abbrev phase_2 : List Snapshot → JsNumber → M W BatchResult
  phase_2 ss running = restore_targets api js caps intent ss running [] >>= λ r.
      pure (record r { snapshots = ss; failed_targets = [] })
