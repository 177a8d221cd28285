-- ===== src/Write/Flow/PriceRestore/Caps.antt =====
-- src/tools/writeFlow.ts: what a batch of price restores sends, and that it keeps the caps.
use whmcs_mcp_server.Prelude.{
  ℤ, ◌+ℤ◌, ◌-ℤ◌, ◌≤ℤ◌, String, ◌≡◌, refl, sym, ap, subst, ◌∙◌, Bool, true, false, Option, none,
  some, List, [], ◌∷◌, ◌++◌, ◌⊕◌, if◌then◌else◌,
}
use whmcs_mcp_server.Prelude.JsNumber.{JsNumber, finite, plus}
use whmcs_mcp_server.Json.{number}
use whmcs_mcp_server.Write.Types.{
  WriteIntent, HighRiskCaps, target_amount_cap_exceeded, audit_write_failed,
}
use whmcs_mcp_server.Write.DayAmounts
use whmcs_mcp_server.Write.DayAmounts.{DayAmountsStore}
use whmcs_mcp_server.Write.Audit.{
  AuditEvent, AuditLog, audit_event, intent_executed, intent_execution_blocked, intent_failed,
  append_durable,
}
use whmcs_mcp_server.Write.Mapping.Values.{Js}
use whmcs_mcp_server.Write.Mapping.Services.{map_service_price_restore_target}
use whmcs_mcp_server.Write.Flow.Program.{
  Api, Flow, M, Effect, audited, mutated, returns, pure, gets, ◌>>=◌, continue, read, mutate,
  append_event, append_event_durable, durable_outcome, add_amount, record_key,
}
use whmcs_mcp_server.Write.Flow.Assertions.{assert_price_restore_output}
use whmcs_mcp_server.Write.Flow.Steps.{after-Calm, bind_ok, gets-Calm, read-Calm, append_event-Calm}
use whmcs_mcp_server.Write.Flow.PriceRestore.Rounds.{
  IsDelta, magnitude-IsDelta, HasFiniteAmounts, IsTargetAttempt, call_of, Rounds, caps, RanFrom,
  IsGood, within_caps, RanFrom-Calm, RanFrom-more, RanFrom-stopped, RanFrom-at, Rounds-end,
  IsApplied-status,
}
use whmcs_mcp_server.Write.Flow.Targets.{
  Snapshot, target_verified, target_executed, target_failed, target_skipped, TargetOutcome,
  BatchResult, batch_action, magnitude, distance, exceeds_caps,
}
use whmcs_mcp_server.Write.Flow.PriceRestore.{
  target_text, outcome_of, stopped, Rest, amount_read_back, settle_target, run_target,
  unless_leaking, restore_target, restore_targets,
}

module _ {W : Type 0} (api : Api W) (js : Js) (per_action daily : ℤ) (intent : WriteIntent) where
  abbrev limits : HighRiskCaps
  limits = caps api js per_action daily intent

  settle_target-RanFrom :
      (s : Snapshot) (running a : ℤ) (outcomes : List TargetOutcome)
      (rest : Rest api js limits intent) (thrown : Option String) (st : Flow W) (es : List Effect)
      (e : AuditEvent)
      → IsGood api js per_action daily intent rest
      → IsDelta s.target.new_amount s.current_amount a
      → a ≤ℤ per_action
      → running +ℤ a ≤ℤ daily
      → IsTargetAttempt intent e
      → st.effects
        ≡ mutated batch_action
            (map_service_price_restore_target s.target.serviceid (number s.target.new_amount))
            (returns thrown)
          ∷ audited e
          ∷ es
      → RanFrom api js per_action daily intent running es st.day_amounts outcomes
          (settle_target api js limits intent s (finite a) (finite running) outcomes rest thrown st)
  unfolding settle_target plus add_amount pure
  settle_target-RanFrom s running a outcomes rest (some message) st es e good c p q attempt h =
      let o = outcome_of api js limits intent s target_failed (finite a) in
      after-Calm (RanFrom api js per_action daily intent running es st.day_amounts outcomes)
        (append_event api intent_failed intent _) _ st (append_event-Calm api _ _ _)
        (λ u st' same. (
          _,
          o ∷ [],
          refl,
          refl,
          Rounds-end api js per_action daily intent running es st.day_amounts (o ∷ [])
              (call_of o false ∷ audited e ∷ es) st'.effects st.day_amounts st'.day_amounts
              (sym (same.effects ∙ h)) (sym same.day_amounts)
              (Rounds.failed running es st.day_amounts o e refl attempt),
        ))
  settle_target-RanFrom s running a outcomes rest none st es e good c p q attempt h =
      after-Calm (RanFrom api js per_action daily intent running es st.day_amounts outcomes)
        (read api _ _) _ st (read-Calm api _ _)
        (λ resp st₁ same₁.
          let verified_by = amount_read_back api js limits intent s.target resp in
          let status = if verified_by then target_verified else target_executed in
          let o = outcome_of api js limits intent s status (finite a) in
          let day = api.utc_day (api.clock st₁.whmcs) in
          let added = DayAmounts.add batch_action (finite a) day in
          subst (RanFrom api js per_action daily intent running es st.day_amounts outcomes)
            (sym (bind_ok (add_amount api batch_action (finite a)) _ st₁ tt refl))
            (after-Calm (RanFrom api js per_action daily intent running es st.day_amounts outcomes)
              (append_event api _ intent _) _ (record st₁ { day_amounts = added st₁.day_amounts })
              (append_event-Calm api _ _ _)
              (λ u st₂ same₂.
                let p' = rest (finite (running +ℤ a)) (outcomes ++ o ∷ []) st₂ in
                let sent = call_of o true ∷ audited e ∷ es in
                RanFrom-more api js per_action daily intent running es sent st.day_amounts
                  (added st.day_amounts) outcomes o (running +ℤ a) p'
                  (λ os es'' d'' rounds.
                    Rounds.applied running a es es'' st.day_amounts d'' o os e day
                      (IsApplied-status api js per_action daily intent verified_by) refl c p q
                      attempt rounds)
                  (RanFrom-at api js per_action daily intent (running +ℤ a) st₂.effects sent
                    st₂.day_amounts (added st.day_amounts) (outcomes ++ o ∷ []) p'
                    (same₂.effects ∙ same₁.effects ∙ h)
                    (same₂.day_amounts ∙ ap added same₁.day_amounts)
                    (good (running +ℤ a) (outcomes ++ o ∷ []) st₂)))))

  run_target-RanFrom :
      (s : Snapshot) (running a : ℤ) (outcomes : List TargetOutcome)
      (rest : Rest api js limits intent) (e : AuditEvent) (log : Option AuditLog) (st : Flow W)
      → IsGood api js per_action daily intent rest
      → IsDelta s.target.new_amount s.current_amount a
      → a ≤ℤ per_action
      → running +ℤ a ≤ℤ daily
      → IsTargetAttempt intent e
      → RanFrom api js per_action daily intent running st.effects st.day_amounts outcomes (
          continue
            (durable_outcome log e st).0
            (run_target api js limits intent s (finite a) (finite running) outcomes rest)
            (durable_outcome log e st).1)
  unfolding run_target record_key mutate ◌>>=◌
  run_target-RanFrom s running a outcomes rest e none st good c p q attempt =
      RanFrom-stopped api js per_action daily intent running outcomes
        (stopped api js limits intent audit_write_failed outcomes s) st refl
  run_target-RanFrom s running a outcomes rest e (some log) st good c p q attempt =
      settle_target-RanFrom s running a outcomes rest _ _ st.effects e good c p q attempt refl

  unless_leaking-RanFrom :
      (s : Snapshot) (running a : ℤ) (outcomes : List TargetOutcome)
      (rest : Rest api js limits intent) (leak : Option String) (st : Flow W)
      → IsGood api js per_action daily intent rest
      → IsDelta s.target.new_amount s.current_amount a
      → a ≤ℤ per_action
      → running +ℤ a ≤ℤ daily
      → RanFrom api js per_action daily intent running st.effects st.day_amounts outcomes
          (unless_leaking api js limits intent s (finite a) (finite running) outcomes rest leak st)
  unfolding append_event_durable ◌>>=◌
  unless_leaking-RanFrom s running a outcomes rest (some message) st good c p q =
      RanFrom-Calm api js per_action daily intent running outcomes
        (append_event api intent_execution_blocked intent _) _ st (append_event-Calm api _ _ _)
        (λ u st'. RanFrom-stopped api js per_action daily intent running outcomes _ st' refl)
  unless_leaking-RanFrom s running a outcomes rest none st good c p q =
      let detail = some (
        target_text api js limits intent "attempting target serviceid=" s.target
          (" delta=" ⊕ js.show_number (finite a))) in
      let at = api.iso (api.clock st.whmcs) in
      let e = audit_event intent_executed intent detail at in
      run_target-RanFrom s running a outcomes rest e
        (append_durable (api.write_line e st.whmcs).0 e st.audit)
        (record st { whmcs = (api.write_line e st.whmcs).1 }) good c p q (detail, at, refl)

  -- A target that was not attempted before, by its delta.
  abbrev capped :
      Snapshot
      → JsNumber
      → JsNumber
      → List TargetOutcome
      → Rest api js limits intent
      → Bool
      → M W BatchResult
  capped s delta running outcomes rest exceeds =
      if exceeds
      then (append_event api intent_execution_blocked intent (
            some (
              target_text api js limits intent "target_amount_cap_exceeded serviceid=" s.target
                (" delta=" ⊕ js.show_number delta)))
          >>= λ u. pure (stopped api js limits intent target_amount_cap_exceeded outcomes s))
      else unless_leaking api js limits intent s delta running outcomes rest (
          assert_price_restore_output
            (map_service_price_restore_target s.target.serviceid (number s.target.new_amount)))

  capped-RanFrom :
      (s : Snapshot) (running a : ℤ) (outcomes : List TargetOutcome)
      (rest : Rest api js limits intent) (exceeds : Bool) (st : Flow W)
      → exceeds_caps limits (finite running) (finite a) ≡ exceeds
      → IsGood api js per_action daily intent rest
      → IsDelta s.target.new_amount s.current_amount a
      → RanFrom api js per_action daily intent running st.effects st.day_amounts outcomes
          (capped s (finite a) (finite running) outcomes rest exceeds st)
  capped-RanFrom s running a outcomes rest true st h good c =
      RanFrom-Calm api js per_action daily intent running outcomes
        (append_event api intent_execution_blocked intent _) _ st (append_event-Calm api _ _ _)
        (λ u st'. RanFrom-stopped api js per_action daily intent running outcomes _ st' refl)
  capped-RanFrom s running a outcomes rest false st h good c =
      let (p, q) = within_caps api js per_action daily intent running a h in
      unless_leaking-RanFrom s running a outcomes rest _ st good c p q

  restore_target-RanFrom :
      (s : Snapshot) (n : ℤ) (running : ℤ) (outcomes : List TargetOutcome)
      (rest : Rest api js limits intent) (seen_before : Bool) (st : Flow W)
      → s.target.new_amount ≡ finite n
      → IsGood api js per_action daily intent rest
      → RanFrom api js per_action daily intent running st.effects st.day_amounts outcomes
          (restore_target api js limits intent s (finite running) outcomes rest seen_before st)
  unfolding restore_target distance
  restore_target-RanFrom s n running outcomes rest true st h good =
      RanFrom-Calm api js per_action daily intent running outcomes
        (append_event api intent_executed intent _) _ st (append_event-Calm api _ _ _)
        (λ u st'.
          let o =
            outcome_of api js limits intent s target_skipped
              (distance s.target.new_amount s.current_amount) in
          RanFrom-more api js per_action daily intent running st'.effects st'.effects
            st'.day_amounts st'.day_amounts outcomes o running
            (rest (finite running) (outcomes ++ o ∷ []) st')
            (λ os es'' d'' rounds.
              Rounds.skipped running st'.effects es'' st'.day_amounts d'' o os refl rounds)
            (good running (outcomes ++ o ∷ []) st'))
  restore_target-RanFrom s n running outcomes rest false st h good =
      let a = magnitude (n -ℤ s.current_amount) in
      let c = s.current_amount in
      subst
        (λ m. RanFrom api js per_action daily intent running st.effects st.day_amounts outcomes (
          capped s (distance m c) (finite running) outcomes rest
            (exceeds_caps limits (finite running) (distance m c)) st))
        (sym h)
        (capped-RanFrom s running a outcomes rest (exceeds_caps limits (finite running) (finite a))
          st refl good (magnitude-IsDelta s.target.new_amount n c h))

  -- Phase 2 from a finite running total.
  pub restore_targets-RanFrom :
      (ss : List Snapshot) (running : ℤ) (outcomes : List TargetOutcome) (st : Flow W)
      → HasFiniteAmounts ss
      → RanFrom api js per_action daily intent running st.effects st.day_amounts outcomes
          (restore_targets api js limits intent ss (finite running) outcomes st)
  unfolding restore_targets
  restore_targets-RanFrom [] running outcomes st f =
      RanFrom-stopped api js per_action daily intent running outcomes _ st refl
  restore_targets-RanFrom (s ∷ ss) running outcomes st ((n, h), f) =
      RanFrom-Calm api js per_action daily intent running outcomes (gets _) _ st (gets-Calm _)
        (λ seen_before st'.
          restore_target-RanFrom s n running outcomes (restore_targets api js limits intent ss)
            seen_before st' h
            (λ running' outcomes' st''. restore_targets-RanFrom ss running' outcomes' st'' f))
