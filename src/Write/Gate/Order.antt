-- ===== src/Write/Gate/Order.antt =====
-- The order of steps 1 to 7 of the gate.
use whmcs_mcp_server.Prelude.{
  String, ◌≡◌, ◌≢◌, ◌⊎◌, inl, inr, refl, Bool, true, false, some, arith, eq_iff,
}
use whmcs_mcp_server.Write.Types.{
  ExecutionRequest, ExecutionEnv, production, staging, local_env, ExecutionDeniedReason,
  kill_switch_engaged, read_only_mode, intent_not_approved, consumer_not_execution_allowed,
  idempotency_replay, action_permanently_blocked, destructive_confirmation_required,
  action_not_prod_authorized, action_not_runtime_authorized, denied, approved, read_only,
}
use whmcs_mcp_server.Write.Gate.{pre_authorize_intent, check_allowlist, is_destructive}
use whmcs_mcp_server.Write.Gate.Rules.{
  IsDestructive, IsExecutable, IsConfirmed, NeedsAllowlist, IsListed,
}
use whmcs_mcp_server.Write.Gate.PreAuthorize.{
  permanently_blocked-eq-false_iff, unconfirmed-eq-false, allowlist_required_sound,
  check_allowlist_iff,
}

module _ (req : ExecutionRequest) (already_executed : String → Bool) where
  abbrev Unsealed : Type 0
  Unsealed = req.kill_switch ≢ some true

  abbrev Writable : Type 0
  Writable = Unsealed × (req.mcp_mode ≢ read_only)

  abbrev Approved : Type 0
  Approved = Writable × (req.intent.state ≡ approved)

  abbrev Cleared : Type 0
  Cleared = Approved × (req.consumer_write_capability ≡ "execution_allowed")

  abbrev Fresh : Type 0
  Fresh = Cleared × (already_executed req.intent.idempotency_key ≡ false)

  abbrev Executable : Type 0
  Executable = Fresh × IsExecutable req

  abbrev Confirmed : Type 0
  Confirmed = Executable × IsConfirmed req

  -- The steps before the one that a reason reports have passed, and that one fails.
  abbrev pub IsFirstFailure : ExecutionDeniedReason → Type 0
  IsFirstFailure kill_switch_engaged = req.kill_switch ≡ some true
  IsFirstFailure read_only_mode = Unsealed × (req.mcp_mode ≡ read_only)
  IsFirstFailure intent_not_approved = Writable × (req.intent.state ≢ approved)
  IsFirstFailure consumer_not_execution_allowed =
      Approved × (req.consumer_write_capability ≢ "execution_allowed")
  IsFirstFailure idempotency_replay = Cleared × (already_executed req.intent.idempotency_key ≡ true)
  IsFirstFailure action_permanently_blocked = Fresh × (¬ IsExecutable req)
  IsFirstFailure destructive_confirmation_required =
      Executable × IsDestructive req × (¬ IsConfirmed req)
  IsFirstFailure action_not_prod_authorized =
      Confirmed
      × (¬ IsDestructive req)
      × NeedsAllowlist req
      × (req.env ≡ production)
      × (¬ IsListed req.env req)
  IsFirstFailure action_not_runtime_authorized =
      Confirmed
      × (¬ IsDestructive req)
      × NeedsAllowlist req
      × (req.env ≢ production)
      × (¬ IsListed req.env req)
  IsFirstFailure _ = ⊥

  check_allowlist-denied :
      (env : ExecutionEnv) (r : ExecutionDeniedReason)
      → check_allowlist env req ≡ denied r
      → (¬ IsListed env req)
        × (((r ≡ action_not_prod_authorized) × (env ≡ production))
            ⊎ ((r ≡ action_not_runtime_authorized) × (env ≢ production)))
  unfolding check_allowlist
  check_allowlist-denied production r h =
      (λ l. cc (h, (check_allowlist_iff req production).1 l), inl (ground arith, refl))
  check_allowlist-denied staging r h =
      (λ l. cc (h, (check_allowlist_iff req staging).1 l), inr (ground arith, λ e. cc))
  check_allowlist-denied local_env r h =
      (λ l. cc (h, (check_allowlist_iff req local_env).1 l), inr (ground arith, λ e. cc))

  -- The reasons of the steps from the sixth on.
  abbrev IsLate : ExecutionDeniedReason → Type 0
  IsLate r =
      (r ≢ kill_switch_engaged)
      × (r ≢ read_only_mode)
      × (r ≢ intent_not_approved)
      × (r ≢ consumer_not_execution_allowed)
      × (r ≢ idempotency_replay)

  late-Fresh :
      (r : ExecutionDeniedReason)
      → pre_authorize_intent req already_executed ≡ denied r
      → IsLate r
      → Fresh
  unfolding pre_authorize_intent
  late-Fresh r h late = ground (arith, eq_iff req.consumer_write_capability "execution_allowed")

  late-Executable :
      (r : ExecutionDeniedReason)
      → pre_authorize_intent req already_executed ≡ denied r
      → IsLate r
      → r ≢ action_permanently_blocked
      → IsExecutable req
  unfolding pre_authorize_intent
  late-Executable r h late other = (permanently_blocked-eq-false_iff req).0 (ground arith)

  late-Confirmed :
      (r : ExecutionDeniedReason)
      → pre_authorize_intent req already_executed ≡ denied r
      → IsLate r
      → r ≢ action_permanently_blocked
      → r ≢ destructive_confirmation_required
      → IsConfirmed req
        × (¬ IsDestructive req)
        × NeedsAllowlist req
        × (check_allowlist req.env req ≡ denied r)
  unfolding pre_authorize_intent
  late-Confirmed r h late other another = (
    (unconfirmed-eq-false req).0 (ground arith),
    (allowlist_required_sound req (ground arith)).0,
    (allowlist_required_sound req (ground arith)).1,
    ground arith,
  )

  -- A denial of `preAuthorizeIntent` names the first step that fails: its own condition fails, and
  -- every condition of the steps before it holds. The conditions are those of the code: a
  -- destructive scope is confirmed by a configured phrase that is not empty, and the allowlist is
  -- asked only of a scope that is not destructive.
  pub pre_authorize_intent-IsFirstFailure :
      (r : ExecutionDeniedReason)
      → pre_authorize_intent req already_executed ≡ denied r
      → IsFirstFailure r
  unfolding pre_authorize_intent is_destructive
  pre_authorize_intent-IsFirstFailure kill_switch_engaged h =
      ground (arith, check_allowlist-denied req.env kill_switch_engaged)
  pre_authorize_intent-IsFirstFailure read_only_mode h =
      ground (arith, check_allowlist-denied req.env read_only_mode)
  pre_authorize_intent-IsFirstFailure intent_not_approved h =
      ground (arith, check_allowlist-denied req.env intent_not_approved)
  pre_authorize_intent-IsFirstFailure consumer_not_execution_allowed h = ground (
    arith,
    check_allowlist-denied req.env consumer_not_execution_allowed,
    eq_iff req.consumer_write_capability "execution_allowed",
  )
  pre_authorize_intent-IsFirstFailure idempotency_replay h = ground (
    arith,
    check_allowlist-denied req.env idempotency_replay,
    eq_iff req.consumer_write_capability "execution_allowed",
  )
  pre_authorize_intent-IsFirstFailure action_permanently_blocked h = (
    late-Fresh action_permanently_blocked h (ground arith),
    λ x. ground (
      arith,
      (permanently_blocked-eq-false_iff req).1 x,
      check_allowlist-denied req.env action_permanently_blocked,
    ),
  )
  pre_authorize_intent-IsFirstFailure destructive_confirmation_required h = (
    (
      late-Fresh destructive_confirmation_required h (ground arith),
      late-Executable destructive_confirmation_required h (ground arith) (λ e. cc),
    ),
    ground (arith, check_allowlist-denied req.env destructive_confirmation_required),
    λ k. ground (
      arith,
      (unconfirmed-eq-false req).1 k,
      check_allowlist-denied req.env destructive_confirmation_required,
    ),
  )
  pre_authorize_intent-IsFirstFailure action_not_prod_authorized h =
      let r = action_not_prod_authorized in
      let late : IsLate r = ground arith in
      let (confirmed, other, needed, refused) = late-Confirmed r h late (λ e. cc) (λ e. cc) in
      let (unlisted, place) = check_allowlist-denied req.env r refused in
      (
        ((late-Fresh r h late, late-Executable r h late (λ e. cc)), confirmed),
        other,
        needed,
        ground arith,
        unlisted,
      )
  pre_authorize_intent-IsFirstFailure action_not_runtime_authorized h =
      let r = action_not_runtime_authorized in
      let late : IsLate r = ground arith in
      let (confirmed, other, needed, refused) = late-Confirmed r h late (λ e. cc) (λ e. cc) in
      let (unlisted, place) = check_allowlist-denied req.env r refused in
      (
        ((late-Fresh r h late, late-Executable r h late (λ e. cc)), confirmed),
        other,
        needed,
        ground arith,
        unlisted,
      )
  pre_authorize_intent-IsFirstFailure r h = ground (arith, check_allowlist-denied req.env r)
