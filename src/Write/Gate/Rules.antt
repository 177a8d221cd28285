-- ===== src/Write/Gate/Rules.antt =====
-- The conditions of the execution gate, stated as propositions and independently of the order in
-- which src/write/executionGate.ts tests them.
use whmcs_mcp_server.Prelude.{
  String, ◌≡◌, ◌≢◌, ◌⊎◌, Bool, true, false, Option, none, some, List, includes,
}
use whmcs_mcp_server.Write.Scopes.{
  high, scope_text, prod_never_executable, prod_never_executable_scopes, destructive_write_scopes,
}
use whmcs_mcp_server.Write.Types.{approved, ExecutionEnv, production, read_only, ExecutionRequest}

-- The scope is one of those that delete or remove.
abbrev pub IsDestructive : ExecutionRequest → Type 0
IsDestructive req = includes destructive_write_scopes (scope_text req.intent.scope) ≡ true

abbrev pub NamedBy : List String → ExecutionRequest → Type 0
NamedBy allow req =
    (includes allow req.intent.action ≡ true)
    ⊎ (includes allow (scope_text req.intent.scope) ≡ true)

abbrev pub InOptional : Option (List String) → String → Type 0
InOptional none s = ⊥
InOptional (some l) s = includes l s ≡ true

abbrev pub NamedByOptional : Option (List String) → ExecutionRequest → Type 0
NamedByOptional none req = ⊥
NamedByOptional (some l) req = NamedBy l req

-- Step 6.
abbrev pub IsExecutable : ExecutionRequest → Type 0
IsExecutable req =
    ((includes prod_never_executable req.intent.action ≡ false)
      × (includes prod_never_executable_scopes (scope_text req.intent.scope) ≡ false))
    ⊎ (IsDestructive req × InOptional req.allowed_destructive_scopes (scope_text req.intent.scope))

-- Step 6b.
abbrev pub IsConfirmed : ExecutionRequest → Type 0
IsConfirmed req =
    IsDestructive req
    → (phrase : String) × (req.destructive_confirm_phrase ≡ some phrase)
      × (phrase ≢ "")
      × (req.intent.confirmation ≡ some phrase)

-- What makes step 7 ask for an allowlist.
abbrev pub NeedsAllowlist : ExecutionRequest → Type 0
NeedsAllowlist req =
    (req.intent.risk ≡ high)
    ⊎ (req.strict_allowlist ≡ some true)
    ⊎ InOptional req.strict_scopes (scope_text req.intent.scope)

abbrev pub IsListed : ExecutionEnv → ExecutionRequest → Type 0
IsListed production req = NamedByOptional req.prod_authorized_actions req
IsListed _ req = NamedBy req.runtime_authorized_actions req

-- Steps 1 to 7.
pub record IsPreAuthorized (req : ExecutionRequest) (already_executed : String → Bool)
    : Type 0 where
  pub unsealed : req.kill_switch ≢ some true
  pub writable : req.mcp_mode ≢ read_only
  pub approval : req.intent.state ≡ approved
  pub cleared : req.consumer_write_capability ≡ "execution_allowed"
  pub fresh : already_executed req.intent.idempotency_key ≡ false
  pub executable : IsExecutable req
  pub confirmed : IsConfirmed req
  pub listed : ¬ IsDestructive req → NeedsAllowlist req → IsListed req.env req
