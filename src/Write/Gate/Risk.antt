-- ===== src/Write/Gate/Risk.antt =====
-- Step 8 of the gate, the caps on money, and what the whole authorizer allows.
use whmcs_mcp_server.Prelude.{
  String, ◌≡◌, ◌≢◌, refl, ◌⊎◌, ◌↔◌, Bool, true, false, Option, none, some, arith, eq_iff,
  Bool-cases, inl, inr,
}
use whmcs_mcp_server.Prelude.JsNumber.{JsNumber, num_zero, lt, le, plus}
use whmcs_mcp_server.Write.Scopes.{WriteRisk, high}
use whmcs_mcp_server.Write.Types.{
  ExecutionRequest, HumanApprovalRecord, AmountContext, HighRiskCaps, allowed,
}
use whmcs_mcp_server.Write.Gate.{
  or_zero_caps, finite_or_zero, approved_by, check_caps, check_risk, default_execution_authorizer,
  is_destructive, is_true,
}
use whmcs_mcp_server.Write.Gate.Rules.{IsDestructive, IsPreAuthorized}
use whmcs_mcp_server.Write.Gate.PreAuthorize.{pre_authorize_intent_iff}

-- The drafter has not approved the intent.
abbrev pub IsOtherHand : ExecutionRequest → Type 0
IsOtherHand req =
    (approval : HumanApprovalRecord)
    → req.human_approval ≡ some approval
    → approval.approver_consumer_id ≢ req.intent.consumer_id

-- A cap that allows anything is finite and positive; an amount that is NaN passes such a cap.
abbrev pub FitsCap : JsNumber → JsNumber → Type 0
FitsCap cap amount =
    (le (finite_or_zero cap) num_zero ≡ false) × (lt (finite_or_zero cap) amount ≡ false)

abbrev pub FitsCaps : HighRiskCaps → Option AmountContext → Type 0
FitsCaps caps none = ⊥
FitsCaps caps (some amt) =
    FitsCap caps.per_action amt.amount × FitsCap caps.daily (plus amt.day_total amt.amount)

-- What step 8 asks of an intent that is not destructive.
abbrev pub RiskCleared : WriteRisk → ExecutionRequest → Type 0
RiskCleared high req =
    ((req.human_approval ≢ none) ⊎ (req.allow_high_risk_self_approval ≡ some true))
    × IsOtherHand req
    × FitsCaps (or_zero_caps req.caps) req.amount_context
RiskCleared _ req = req.require_distinct_approver ≡ some true → IsOtherHand req

check_caps_iff :
    (caps : HighRiskCaps) (amt : Option AmountContext)
    → (check_caps caps amt ≡ allowed) ↔ FitsCaps caps amt
unfolding check_caps
check_caps_iff caps none = (λ h. cc, λ h. absurd h)
check_caps_iff caps (some amt) = (λ h. ground arith, λ h. ground arith)

approved_by_sound :
    (approval : Option HumanApprovalRecord) (id : String)
    → approved_by approval id ≡ false
    → (a : HumanApprovalRecord) → approval ≡ some a
    → a.approver_consumer_id ≢ id
unfolding approved_by
approved_by_sound none id h a e same = cc
approved_by_sound (some b) id h a e same = ground (arith, eq_iff b.approver_consumer_id id)

approved_by_complete :
    (approval : Option HumanApprovalRecord) (id : String)
    → ((a : HumanApprovalRecord) → approval ≡ some a → a.approver_consumer_id ≢ id)
    → approved_by approval id ≡ false
unfolding approved_by
approved_by_complete none id k = refl
approved_by_complete (some b) id k = ground (arith, eq_iff b.approver_consumer_id id, k b refl)

check_risk_sound :
    (risk : WriteRisk) (req : ExecutionRequest)
    → check_risk risk req ≡ allowed
    → RiskCleared risk req
unfolding check_risk
check_risk_sound high req h = (
  ground arith,
  approved_by_sound req.human_approval req.intent.consumer_id (ground arith),
  (check_caps_iff (or_zero_caps req.caps) req.amount_context).0 (ground arith),
)
check_risk_sound _ req h = λ d approval e.
    approved_by_sound req.human_approval req.intent.consumer_id (ground arith) approval e

check_risk_complete :
    (risk : WriteRisk) (req : ExecutionRequest)
    → RiskCleared risk req
    → check_risk risk req ≡ allowed
unfolding check_risk
check_risk_complete high req (present, other, fits) =
    let apart = approved_by_complete req.human_approval req.intent.consumer_id other in
    let capped = (check_caps_iff (or_zero_caps req.caps) req.amount_context).1 fits in ground arith
check_risk_complete _ req k = elim (Bool-cases (is_true req.require_distinct_approver)) [
  | inl strict ↦
      let apart =
        approved_by_complete req.human_approval req.intent.consumer_id (k (ground arith)) in
      ground arith
  | inr lax ↦ ground arith
]

-- The specification of the authorizer.
abbrev pub IsAuthorized : ExecutionRequest → (String → Bool) → Type 0
IsAuthorized req already_executed =
    IsPreAuthorized req already_executed × (IsDestructive req ⊎ RiskCleared req.intent.risk req)

pub default_execution_authorizer_iff :
    (req : ExecutionRequest) (already_executed : String → Bool)
    → (default_execution_authorizer req already_executed ≡ allowed)
      ↔ IsAuthorized req already_executed
unfolding default_execution_authorizer is_destructive
default_execution_authorizer_iff req already_executed =
    let (sound, complete) = pre_authorize_intent_iff req already_executed in
    (
      λ h. (
        sound (ground arith),
        elim (Bool-cases (is_destructive req.intent)) [
          | inl d ↦ inl (ground arith)
          | inr other ↦ inr (check_risk_sound req.intent.risk req (ground arith))
        ],
      ),
      λ (pre, policy).
          let passed = complete pre in
          elim policy [
            | inl d ↦ ground arith
            | inr cleared ↦
                let risk = check_risk_complete req.intent.risk req cleared in ground arith
          ],
    )
