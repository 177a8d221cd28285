-- ===== src/Auth/Tests.antt =====
-- A token for medium risk, and a scope list with blanks and repetitions.
use whmcs_mcp_server.Prelude.{String, ◌≡◌, List, [], ◌∷◌, map, leb}
use whmcs_mcp_server.Write.Scopes.{medium, billing_credit_add, scope_text, scope_risk}
use whmcs_mcp_server.Auth.Scopes.{
  required_scope_for_write, required_scope_for_write_scope, has_required_scope, granted_from_scopes,
}
use whmcs_mcp_server.Auth.Granted.{
  rank_of, has_required_scope-required_scope_for_write_scope,
  has_required_scope-granted_from_scopes,
}

abbrev untrimmed : String → String
untrimmed s = s

abbrev scope_list : List String
scope_list = "whmcs:read" ∷ "" ∷ "whmcs:read" ∷ "whmcs:write:low" ∷ []

has_required_scope-required_scope_for_write_scope_example :
    has_required_scope
      (required_scope_for_write medium ∷ [])
      (required_scope_for_write_scope (scope_text billing_credit_add))
    ≡ leb (rank_of (scope_risk billing_credit_add)) (rank_of medium)
has_required_scope-required_scope_for_write_scope_example =
    has_required_scope-required_scope_for_write_scope medium billing_credit_add

has_required_scope-granted_from_scopes_example :
    has_required_scope (granted_from_scopes untrimmed scope_list) "whmcs:write:low"
    ≡ has_required_scope (map untrimmed scope_list) "whmcs:write:low"
has_required_scope-granted_from_scopes_example =
    has_required_scope-granted_from_scopes untrimmed scope_list "whmcs:write:low"
