-- ===== src/Write/Flow/Assertions.antt =====
-- src/tools/writeFlow.ts: the last look at a mapper's output before it is sent.
use whmcs_mcp_server.Prelude.{
  String, Option, none, some, List, [], ◌∷◌, ◌⊕◌, includes, if◌then◌else◌,
}
use whmcs_mcp_server.Write.Scopes.{
  WriteScope, service_domain_rename, service_product_set, service_customfields_update,
}
use whmcs_mcp_server.Write.Mapping.Values.{Output}
use whmcs_mcp_server.Write.Mapping.Services.{price_restore_recurring_field}
use whmcs_mcp_server.Write.Mapping.Strict.Keys.{keys}

-- The message of the error that is thrown for the first key that is not allowed.
unfoldable pub first_unexpected : List String → List String → String → Option String
first_unexpected [] allowed scope = none
first_unexpected (k ∷ ks) allowed scope =
    let rest = first_unexpected ks allowed scope in
    if includes allowed k
    then rest
    else some
        ("scope-output assertion: unexpected key \"" ⊕ k ⊕ "\" in " ⊕ scope ⊕ " mapper output")

unfoldable pub first_missing : List String → List String → String → Option String
first_missing present [] scope = none
first_missing present (k ∷ ks) scope =
    let rest = first_missing present ks scope in
    if includes present k
    then rest
    else some ("scope-output assertion: missing " ⊕ k ⊕ " in " ⊕ scope ⊕ " mapper output")

abbrev pub or_else : Option String → Option String → Option String
or_else none o = o
or_else (some message) o = some message

-- `none` where nothing is thrown.
unfoldable pub assert_exact_keys :
    Output → (allowed required : List String) → (scope : String) → Option String
unfolding first_unexpected first_missing
assert_exact_keys out allowed required scope =
    or_else (first_unexpected (keys out) allowed scope) (first_missing (keys out) required scope)

abbrev pub price_restore_allowed_keys : List String
price_restore_allowed_keys = "serviceid" ∷ price_restore_recurring_field ∷ []

unfoldable pub assert_price_restore_output : Output → Option String
unfolding assert_exact_keys
assert_price_restore_output out =
    assert_exact_keys out price_restore_allowed_keys price_restore_allowed_keys
      "service:price_restore"

abbrev pub domain_rename_allowed_keys : List String
domain_rename_allowed_keys = "serviceid" ∷ "domain" ∷ []

unfoldable pub assert_domain_rename_output : Output → Option String
unfolding assert_exact_keys
assert_domain_rename_output out =
    assert_exact_keys out domain_rename_allowed_keys domain_rename_allowed_keys
      "service:domain_rename"

unfoldable pub assert_service_product_set_output : Output → Option String
unfolding assert_exact_keys
assert_service_product_set_output out =
    assert_exact_keys out ("serviceid" ∷ "pid" ∷ "billingcycle" ∷ []) ("serviceid" ∷ "pid" ∷ [])
      "service:product:set"

unfoldable pub assert_service_custom_fields_output : Output → Option String
unfolding assert_exact_keys
assert_service_custom_fields_output out =
    assert_exact_keys out ("serviceid" ∷ "customfields" ∷ []) ("serviceid" ∷ "customfields" ∷ [])
      "service:customfields:update"

-- The three tests before `whmcs.mutate`.
unfoldable pub assert_output : WriteScope → Output → Option String
unfolding assert_domain_rename_output assert_service_product_set_output
    assert_service_custom_fields_output
assert_output service_domain_rename out = assert_domain_rename_output out
assert_output service_product_set out = assert_service_product_set_output out
assert_output service_customfields_update out = assert_service_custom_fields_output out
assert_output _ out = none
