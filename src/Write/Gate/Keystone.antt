-- ===== src/Write/Gate/Keystone.antt =====
-- The safety properties of the gate.
use whmcs_mcp_server.Prelude.{
  List, String, ◌≡◌, ◌≢◌, Bool, true, ◌||◌, Option, none, some, [], arith, includes, ◌≤ℤ◌, ◌+ℤ◌, ℤ,
  inl, inr, Bool-cases, refl,
}
use whmcs_mcp_server.Prelude.JsNumber.{finite, plus}
use whmcs_mcp_server.Write.Scopes.{
  WriteRisk, high, WriteScope, service_terminate, client_contact_delete, scope_text, scope_action,
  scope_risk, prod_never_executable, prod_never_executable_scopes, destructive_write_scopes,
}
use whmcs_mcp_server.Write.Types.{ExecutionRequest, ExecutionEnv, production, allowed}
use whmcs_mcp_server.Write.Gate.{default_execution_authorizer, or_empty}
use whmcs_mcp_server.Write.Gate.Rules.{
  IsDestructive, InOptional, NamedByOptional, IsExecutable, IsListed,
}
use whmcs_mcp_server.Write.Gate.Risk.{
  RiskCleared, FitsCaps, IsOtherHand, default_execution_authorizer_iff,
}

-- The intent has the action and the risk that the tables give to its scope.
pub record IsTabled (req : ExecutionRequest) : Type 0 where
  pub action : req.intent.action ≡ scope_action req.intent.scope
  pub risk : req.intent.risk ≡ scope_risk req.intent.scope

-- Every destructive scope is blocked by its action or by itself.
destructive_blocked :
    (s : WriteScope)
    → includes destructive_write_scopes (scope_text s) ≡ true
    → (includes prod_never_executable (scope_action s)
        || includes prod_never_executable_scopes (scope_text s))
      ≡ true
unfolding scope_text scope_action destructive_write_scopes prod_never_executable
    prod_never_executable_scopes
destructive_blocked service_terminate h = refl
destructive_blocked client_contact_delete h = refl
destructive_blocked _ h = cc

high_RiskCleared :
    (r : WriteRisk) (req : ExecutionRequest) → r ≡ high → RiskCleared r req → RiskCleared high req
high_RiskCleared high req e c = c
high_RiskCleared _ req e c = cc

FitsCaps_bounds :
    (amount total per_action daily : ℤ)
    → FitsCaps
        (record { per_action = finite per_action; daily = finite daily })
        (some (record { amount = finite amount; day_total = finite total }))
    → (amount ≤ℤ per_action) × (total +ℤ amount ≤ℤ daily)
unfolding plus
FitsCaps_bounds amount total per_action daily h = ground arith

module _ (req : ExecutionRequest) (already_executed : String → Bool) where
  -- An intent of a destructive scope whose action and risk are those of its scope is allowed only
  -- if the operator opted it in, the confirmation phrase is configured and not empty, and the
  -- intent carries exactly that phrase.
  pub destructive_needs_phrase :
      IsTabled req
      → IsDestructive req
      → default_execution_authorizer req already_executed ≡ allowed
      → InOptional req.allowed_destructive_scopes (scope_text req.intent.scope)
        × ((phrase : String) × (req.destructive_confirm_phrase ≡ some phrase)
            × (phrase ≢ "")
            × (req.intent.confirmation ≡ some phrase))
  destructive_needs_phrase t d h =
      let (pre, _) = (default_execution_authorizer_iff req already_executed).0 h in
      (opted pre.executable, pre.confirmed d)
    where
      opted :
          IsExecutable req → InOptional req.allowed_destructive_scopes (scope_text req.intent.scope)
      opted (inl (act, sc)) = ground (arith, destructive_blocked req.intent.scope, t.action)
      opted (inr (_, o)) = o

  -- With an empty production allowlist and no destructive scope opted in, no high-risk intent whose
  -- action and risk are those of its scope is allowed in production.
  pub production_sealed :
      IsTabled req
      → req.env ≡ production
      → req.intent.risk ≡ high
      → or_empty req.prod_authorized_actions ≡ []
      → or_empty req.allowed_destructive_scopes ≡ []
      → default_execution_authorizer req already_executed ≢ allowed
  production_sealed t env risk prod destructive h =
      let (pre, _) = (default_execution_authorizer_iff req already_executed).0 h in
      elim (Bool-cases (includes destructive_write_scopes (scope_text req.intent.scope))) [
        | inl d ↦ ground (arith, (destructive_needs_phrase t d h).0)
        | inr other ↦ ground (arith, pre.listed (λ d. cc) (inl risk))
      ]

  -- A high-risk intent that is allowed, and whose scope is not destructive, where the amount, the
  -- total of the day and both caps are finite: its amount is within the cap of an action, the total
  -- with it is within the daily cap, and no recorded approval is its drafter's (there may be none
  -- under the self-approval exception).
  pub high_risk_within_caps :
      (amount total per_action daily : ℤ)
      → req.intent.risk ≡ high
      → ¬ IsDestructive req
      → req.amount_context ≡ some (record { amount = finite amount; day_total = finite total })
      → req.caps ≡ some (record { per_action = finite per_action; daily = finite daily })
      → default_execution_authorizer req already_executed ≡ allowed
      → (amount ≤ℤ per_action) × (total +ℤ amount ≤ℤ daily) × IsOtherHand req
  high_risk_within_caps amount total per_action daily risk other amt caps h =
      let (pre, policy) = (default_execution_authorizer_iff req already_executed).0 h in
      elim policy [
        | inl d ↦ absurd (other d)
        | inr cleared ↦
            let (present, apart, fits) = high_RiskCleared req.intent.risk req risk cleared in
            let (within, day) =
              FitsCaps_bounds amount total per_action daily (rw (amt, caps) at fits) in
            (within, day, apart)
      ]

-- The request with every optional tightening switched off.
abbrev pub loosened : ExecutionRequest → ExecutionRequest
loosened req = record req {
  strict_allowlist = none;
  strict_scopes = none;
  require_distinct_approver = none;
}

RiskCleared-loosened :
    (risk : WriteRisk) (req : ExecutionRequest)
    → RiskCleared risk req
    → RiskCleared risk (loosened req)
RiskCleared-loosened high req c = c
RiskCleared-loosened _ req c = λ e. cc

NamedByOptional-loosened :
    (allow : Option (List String)) (req : ExecutionRequest)
    → NamedByOptional allow req
    → NamedByOptional allow (loosened req)
NamedByOptional-loosened none req n = n
NamedByOptional-loosened (some l) req n = n

IsListed-loosened :
    (env : ExecutionEnv) (req : ExecutionRequest) → IsListed env req → IsListed env (loosened req)
IsListed-loosened production req l = NamedByOptional-loosened req.prod_authorized_actions req l
IsListed-loosened _ req l = l

-- The strict allowlist, the strict scopes and the distinct-approver switch only tighten: what is
-- allowed with them is allowed without.
pub strictness_tightens :
    (req : ExecutionRequest) (already_executed : String → Bool)
    → default_execution_authorizer req already_executed ≡ allowed
    → default_execution_authorizer (loosened req) already_executed ≡ allowed
strictness_tightens req already_executed h =
    let (pre, policy) = (default_execution_authorizer_iff req already_executed).0 h in
    (default_execution_authorizer_iff (loosened req) already_executed).1 (
      record {
        unsealed = pre.unsealed;
        writable = pre.writable;
        approval = pre.approval;
        cleared = pre.cleared;
        fresh = pre.fresh;
        executable = pre.executable;
        confirmed = pre.confirmed;
        listed = λ d n. IsListed-loosened req.env req (pre.listed d (ground arith));
      },
      elim policy [ inl d ↦ inl d | inr c ↦ inr (RiskCleared-loosened req.intent.risk req c) ],
    )
