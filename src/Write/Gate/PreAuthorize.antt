-- ===== src/Write/Gate/PreAuthorize.antt =====
-- Steps 1 to 7 of the gate, `preAuthorizeIntent`, and their conditions.
use whmcs_mcp_server.Prelude.{
  String, ◌≡◌, ◌≢◌, refl, ◌&&◌, not, ◌↔◌, Bool, true, false, Option, none, some, includes, arith,
  eq_iff, Bool-cases, inl, inr,
}
use whmcs_mcp_server.Write.Scopes.{scope_text, destructive_write_scopes}
use whmcs_mcp_server.Write.Types.{ExecutionRequest, ExecutionEnv, allowed}
use whmcs_mcp_server.Write.Gate.{
  pre_authorize_intent, is_destructive, permanently_blocked, phrase_confirmed, allowlist_required,
  check_allowlist, allowlist_authorizes,
}
use whmcs_mcp_server.Write.Gate.Rules.{
  IsDestructive, IsExecutable, IsConfirmed, NeedsAllowlist, IsListed, IsPreAuthorized,
}

pub permanently_blocked-eq-false_iff :
    (req : ExecutionRequest) → (permanently_blocked req ≡ false) ↔ IsExecutable req
unfolding permanently_blocked is_destructive
permanently_blocked-eq-false_iff req = (λ h. ground arith, λ h. ground arith)

phrase_confirmed_sound :
    (phrase confirmation : Option String)
    → phrase_confirmed phrase confirmation ≡ true
    → (p : String) × (phrase ≡ some p) × (p ≢ "") × (confirmation ≡ some p)
unfolding phrase_confirmed
phrase_confirmed_sound (some p) (some typed) h =
    (p, refl, ground (arith, eq_iff p ""), ground (arith, eq_iff typed p))
phrase_confirmed_sound none c h = cc
phrase_confirmed_sound (some p) none h = cc

phrase_confirmed_complete :
    (phrase confirmation : Option String) (p : String)
    → phrase ≡ some p
    → p ≢ ""
    → confirmation ≡ some p
    → phrase_confirmed phrase confirmation ≡ true
unfolding phrase_confirmed
phrase_confirmed_complete phrase confirmation p e n c =
    rw (e, c) (ground (arith, eq_iff p "", eq_iff p p))

module _ (req : ExecutionRequest) where
  -- Step 6b as one test.
  pub unconfirmed-eq-false :
      (is_destructive req.intent
          && not (phrase_confirmed req.destructive_confirm_phrase req.intent.confirmation)
        ≡ false)
      ↔ IsConfirmed req
  unfolding is_destructive
  unconfirmed-eq-false = (
    λ h d.
        phrase_confirmed_sound req.destructive_confirm_phrase req.intent.confirmation
          (ground arith),
    λ k. elim (Bool-cases (includes destructive_write_scopes (scope_text req.intent.scope))) [
      | inl d ↦
          let (p, e, n, c) = k d in
          rw
            (phrase_confirmed_complete req.destructive_confirm_phrase req.intent.confirmation p e n
              c)
            (ground arith)
      | inr other ↦ ground arith
    ],
  )

  pub allowlist_required_sound :
      allowlist_required req ≡ true → (¬ IsDestructive req) × NeedsAllowlist req
  unfolding allowlist_required is_destructive
  allowlist_required_sound h = ground arith

  pub allowlist_required_complete :
      ¬ IsDestructive req → NeedsAllowlist req → allowlist_required req ≡ true
  unfolding allowlist_required is_destructive
  allowlist_required_complete d n = ground arith

  pub check_allowlist_iff :
      (env : ExecutionEnv) → (check_allowlist env req ≡ allowed) ↔ IsListed env req
  unfolding check_allowlist allowlist_authorizes
  check_allowlist_iff env = (λ h. ground arith, λ h. ground arith)

module _ (req : ExecutionRequest) (already_executed : String → Bool) where
  pre_authorize_sound :
      pre_authorize_intent req already_executed ≡ allowed → IsPreAuthorized req already_executed
  unfolding pre_authorize_intent
  pre_authorize_sound h = record {
    unsealed = λ e. ground arith;
    writable = λ e. ground arith;
    approval = ground arith;
    cleared = ground (arith, eq_iff req.consumer_write_capability "execution_allowed");
    fresh = ground arith;
    executable = (permanently_blocked-eq-false_iff req).0 (ground arith);
    confirmed = (unconfirmed-eq-false req).0 (ground arith);
    listed = λ d n.
        let required = allowlist_required_complete req d n in
        (check_allowlist_iff req req.env).0 (ground arith);
  }

  pre_authorize_complete :
      IsPreAuthorized req already_executed → pre_authorize_intent req already_executed ≡ allowed
  unfolding pre_authorize_intent
  pre_authorize_complete c =
      let executable = (permanently_blocked-eq-false_iff req).1 c.executable in
      let confirmed = (unconfirmed-eq-false req).1 c.confirmed in
      elim (Bool-cases (allowlist_required req)) [
        | inl required ↦
            let (d, n) = allowlist_required_sound req required in
            let listed = (check_allowlist_iff req req.env).1 (c.listed d n) in
            ground (arith, eq_iff req.consumer_write_capability "execution_allowed")
        | inr free ↦ ground (arith, eq_iff req.consumer_write_capability "execution_allowed")
      ]

  -- `preAuthorizeIntent` allows a request exactly when it is not sealed, the mode is not read-only,
  -- the intent is approved, the consumer is cleared, the key is not a replay, the action and scope
  -- are executable, a destructive scope is confirmed by the configured phrase, which is not empty,
  -- and a scope that is not destructive and needs an allowlist (it is high-risk, or one of the two
  -- strict options asks for it) is named by that of its environment.
  pub pre_authorize_intent_iff :
      (pre_authorize_intent req already_executed ≡ allowed) ↔ IsPreAuthorized req already_executed
  pre_authorize_intent_iff = (pre_authorize_sound, pre_authorize_complete)
