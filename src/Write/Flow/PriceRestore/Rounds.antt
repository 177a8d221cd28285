-- ===== src/Write/Flow/PriceRestore/Rounds.antt =====
-- src/tools/writeFlow.ts: the rounds of a batch of price restores, and how they are put together.
-- Every new amount is finite, as the validation of the intent has checked, and so are the caps.
use whmcs_mcp_server.Prelude.{
  ◌-ℤ◌, -ℤ_parts, eq_of_parts, ◌⊎◌, inl, inr, ℤ, ◌+ℤ◌, ◌≤ℤ◌, String, ◌≡◌, refl, sym, subst, ◌∙◌,
  Bool, true, false, Option, List, [], ◌∷◌, ◌++◌, arith, if◌then◌else◌,
}
use mathlib.Core.List.{append-nil, append_assoc}
use whmcs_mcp_server.Prelude.JsNumber.{JsNumber, finite, plus}
use whmcs_mcp_server.Json.{number}
use whmcs_mcp_server.Write.Types.{WriteIntent, HighRiskCaps}
use whmcs_mcp_server.Write.DayAmounts
use whmcs_mcp_server.Write.DayAmounts.{DayAmountsStore}
use whmcs_mcp_server.Write.Audit.{AuditEvent, audit_event, intent_executed}
use whmcs_mcp_server.Write.Mapping.Values.{Js}
use whmcs_mcp_server.Write.Mapping.Services.{map_service_price_restore_target}
use whmcs_mcp_server.Write.Flow.Program.{
  Api, Flow, M, Outcome, ok, Effect, audited, mutated, pure, ◌>>=◌,
}
use whmcs_mcp_server.Write.Flow.Steps.{Calm, after-Calm}
use whmcs_mcp_server.Write.Flow.Targets.{
  magnitude, Snapshot, TargetStatus, target_verified, target_executed, target_failed,
  target_skipped, TargetOutcome, BatchResult, batch_action, exceeds_caps,
}
use whmcs_mcp_server.Write.Flow.PriceRestore.{Rest}

-- A target whose call returned.
abbrev pub IsApplied : TargetStatus → Type 0
IsApplied target_verified = Unit
IsApplied target_executed = Unit
IsApplied _ = ⊥

abbrev pub HasFiniteAmounts : List Snapshot → Type 0
HasFiniteAmounts [] = Unit
HasFiniteAmounts (s ∷ ss) = ((a : ℤ) × (s.target.new_amount ≡ finite a)) × HasFiniteAmounts ss

-- A delta is the distance of the new amount from the old one.
abbrev pub IsDelta : JsNumber → ℤ → ℤ → Type 0
IsDelta new old a =
    (n : ℤ) × (new ≡ finite n)
    × (n -ℤ old ≤ℤ a)
    × (old -ℤ n ≤ℤ a)
    × ((a ≡ n -ℤ old) ⊎ (a ≡ old -ℤ n))

magnitude-IsDelta_at :
    (new : JsNumber) (n old x : ℤ) → new ≡ finite n → n -ℤ old ≡ x → IsDelta new old (magnitude x)
magnitude-IsDelta_at new n old (ℤ.pos k) h e = (
  n,
  h,
  ground (arith, -ℤ_parts n old, -ℤ_parts old n),
  ground (arith, -ℤ_parts n old, -ℤ_parts old n),
  inl (sym e),
)
magnitude-IsDelta_at new n old (ℤ.negsuc k) h e = (
  n,
  h,
  ground (arith, -ℤ_parts n old, -ℤ_parts old n),
  ground (arith, -ℤ_parts n old, -ℤ_parts old n),
  inr (
      eq_of_parts (magnitude (ℤ.negsuc k)) (old -ℤ n)
        (ground (arith, -ℤ_parts n old, -ℤ_parts old n))),
)

pub magnitude-IsDelta :
    (new : JsNumber) (n old : ℤ) → new ≡ finite n → IsDelta new old (magnitude (n -ℤ old))
magnitude-IsDelta new n old h = magnitude-IsDelta_at new n old (n -ℤ old) h refl

-- The durable line of a target's attempt.
abbrev pub IsTargetAttempt : WriteIntent → AuditEvent → Type 0
IsTargetAttempt intent e =
    (detail : Option String) × (at : String) × (e ≡ audit_event intent_executed intent detail at)

-- The call of a target.
abbrev pub call_of : TargetOutcome → Bool → Effect
call_of o returned =
    mutated batch_action (map_service_price_restore_target o.serviceid (number o.new_amount))
      returned

module _ (per_action daily : ℤ) (intent : WriteIntent) where
  -- The outcomes of the rounds, with the effects and the daily amounts before and after them, from
  -- a running total. A target that was applied had a delta, the distance of its amounts, within the
  -- cap of an action, and the total stayed within the daily cap; its call was made once, after its
  -- durable line, and its delta was added to the daily amounts. A target that failed is the last.
  pub data Rounds
      : ℤ
        → List Effect
        → DayAmountsStore
        → List TargetOutcome
        → List Effect
        → DayAmountsStore
        → Type 0 where
    done : (running : ℤ) (es : List Effect) (d : DayAmountsStore) → Rounds running es d [] es d
    skipped :
        (running : ℤ) (es es' : List Effect) (d d' : DayAmountsStore) (o : TargetOutcome)
        (os : List TargetOutcome)
        → o.status ≡ target_skipped
        → Rounds running es d os es' d'
        → Rounds running es d (o ∷ os) es' d'
    applied :
        (running a : ℤ) (es es' : List Effect) (d d' : DayAmountsStore) (o : TargetOutcome)
        (os : List TargetOutcome) (e : AuditEvent) (day : String)
        → IsApplied o.status
        → o.delta ≡ finite a
        → IsDelta o.new_amount o.old_amount a
        → a ≤ℤ per_action
        → running +ℤ a ≤ℤ daily
        → IsTargetAttempt intent e
        → Rounds
            (running +ℤ a)
            (call_of o true ∷ audited e ∷ es)
            (DayAmounts.add batch_action (finite a) day d)
            os
            es'
            d'
        → Rounds running es d (o ∷ os) es' d'
    failed :
        (running : ℤ) (es : List Effect) (d : DayAmountsStore) (o : TargetOutcome) (e : AuditEvent)
        → o.status ≡ target_failed
        → IsTargetAttempt intent e
        → Rounds running es d (o ∷ []) (call_of o false ∷ audited e ∷ es) d

module _ {W : Type 0} (api : Api W) (js : Js) (per_action daily : ℤ) (intent : WriteIntent) where
  abbrev pub caps : HighRiskCaps
  caps = record { per_action = finite per_action; daily = finite daily }

  -- A program that returns, having run rounds from a running total after `outcomes`.
  abbrev pub RanFrom :
      ℤ → List Effect → DayAmountsStore → List TargetOutcome → Outcome BatchResult × Flow W → Type 0
  RanFrom running es d outcomes p =
      (r : BatchResult) × (os : List TargetOutcome) × (p.0 ≡ ok r)
      × (r.outcomes ≡ outcomes ++ os)
      × Rounds per_action daily intent running es d os p.1.effects p.1.day_amounts

  -- What is known of the rest of phase 2.
  abbrev pub IsGood : Rest api js caps intent → Type 0
  IsGood rest =
      (running : ℤ) (outcomes : List TargetOutcome) (st : Flow W)
      → RanFrom running st.effects st.day_amounts outcomes (rest (finite running) outcomes st)

  pub within_caps :
      (running a : ℤ)
      → exceeds_caps caps (finite running) (finite a) ≡ false
      → (a ≤ℤ per_action) × (running +ℤ a ≤ℤ daily)
  unfolding exceeds_caps plus
  within_caps running a h = ground arith

  -- A calm step before the rest.
  pub RanFrom-Calm :
      {A : Type 0} (running : ℤ) (outcomes : List TargetOutcome) (m : M W A)
      (k : A → M W BatchResult) (st : Flow W)
      → Calm m
      → ((a : A) (st' : Flow W) → RanFrom running st'.effects st'.day_amounts outcomes (k a st'))
      → RanFrom running st.effects st.day_amounts outcomes ((m >>= k) st)
  RanFrom-Calm running outcomes m k st c f =
      after-Calm (RanFrom running st.effects st.day_amounts outcomes) m k st c (λ a st' same.
        subst (λ es. RanFrom running es st.day_amounts outcomes (k a st')) same.effects
          (subst (λ d. RanFrom running st'.effects d outcomes (k a st')) same.day_amounts
            (f a st')))

  -- An outcome more, and the rounds of the rest.
  pub RanFrom-more :
      (running : ℤ) (es es' : List Effect) (d d' : DayAmountsStore) (outcomes : List TargetOutcome)
      (o : TargetOutcome) (running' : ℤ) (p : Outcome BatchResult × Flow W)
      → ((os : List TargetOutcome) (es'' : List Effect) (d'' : DayAmountsStore)
          → Rounds per_action daily intent running' es' d' os es'' d''
          → Rounds per_action daily intent running es d (o ∷ os) es'' d'')
      → RanFrom running' es' d' (outcomes ++ o ∷ []) p
      → RanFrom running es d outcomes p
  RanFrom-more running es es' d d' outcomes o running' p f (r, os, returned, all_of, rounds) = (
    r,
    o ∷ os,
    returned,
    all_of ∙ append_assoc outcomes (o ∷ []) os,
    f os p.1.effects p.1.day_amounts rounds,
  )

  -- A program that stops without a round.
  pub RanFrom-stopped :
      (running : ℤ) (outcomes : List TargetOutcome) (r : BatchResult) (st : Flow W)
      → r.outcomes ≡ outcomes
      → RanFrom running st.effects st.day_amounts outcomes (pure r st)
  unfolding pure
  RanFrom-stopped running outcomes r st h =
      (r, [], refl, h ∙ sym (append-nil outcomes), Rounds.done running st.effects st.day_amounts)

  -- The same, from a start that is known by equations.
  pub RanFrom-at :
      (running : ℤ) (es es' : List Effect) (d d' : DayAmountsStore) (outcomes : List TargetOutcome)
      (p : Outcome BatchResult × Flow W)
      → es ≡ es'
      → d ≡ d'
      → RanFrom running es d outcomes p
      → RanFrom running es' d' outcomes p
  RanFrom-at running es es' d d' outcomes p h k r =
      subst (λ xs. RanFrom running xs d' outcomes p) h
        (subst (λ x. RanFrom running es x outcomes p) k r)

  pub Rounds-end :
      (running : ℤ) (es : List Effect) (d : DayAmountsStore) (os : List TargetOutcome)
      (es₁ es₂ : List Effect) (d₁ d₂ : DayAmountsStore)
      → es₁ ≡ es₂
      → d₁ ≡ d₂
      → Rounds per_action daily intent running es d os es₁ d₁
      → Rounds per_action daily intent running es d os es₂ d₂
  Rounds-end running es d os es₁ es₂ d₁ d₂ h k r =
      subst (λ xs. Rounds per_action daily intent running es d os xs d₂) h
        (subst (λ x. Rounds per_action daily intent running es d os es₁ x) k r)

  pub IsApplied-status : (b : Bool) → IsApplied (if b then target_verified else target_executed)
  IsApplied-status true = tt
  IsApplied-status false = tt
