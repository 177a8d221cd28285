-- ===== src/Write/Mapping/Domains.antt =====
-- src/write/paramMapping.ts: the mappers of the domain scopes.
use whmcs_mcp_server.Prelude.{String, Option, none, some, List, [], ◌∷◌, str_eq, if◌then◌else◌}
use whmcs_mcp_server.Prelude.JsMap
use whmcs_mcp_server.Json.{Json, boolean, text, Fields, property}
use whmcs_mcp_server.Write.Mapping.Values.{Js, Output, set_present, array_or_empty, is_exactly_true}

module _ (js : Js) where
  -- `typeof n === 'string' ? n.trim().toLowerCase() : n`
  abbrev pub clean_host : Json → Json
  clean_host (text s) = text (js.lower_case (js.trim s))
  clean_host v = v

  -- `slice(0, 5).forEach`: one key for each of the first five.
  unfoldable pub set_hosts : List String → List Json → Output → Output
  set_hosts [] vs out = out
  set_hosts (key ∷ keys) [] out = out
  set_hosts (key ∷ keys) (v ∷ vs) out = set_hosts keys vs (JsMap.set key (some (clean_host v)) out)

  abbrev pub host_keys : List String
  host_keys = "ns1" ∷ "ns2" ∷ "ns3" ∷ "ns4" ∷ "ns5" ∷ []

  unfoldable pub map_domain_nameservers_params : Fields → Output
  unfolding set_hosts
  map_domain_nameservers_params params =
      set_hosts host_keys (array_or_empty (property "nameservers" params))
        (("domainid", property "domainid" params) ∷ [])

  abbrev pub clean_text_host : Option Json → Option Json
  clean_text_host (some (text s)) =
      if str_eq (js.trim s) "" then none else some (text (js.lower_case (js.trim s)))
  clean_text_host _ = none

  -- The loop over `ns1` to `ns5`.
  unfoldable pub copy_hosts : Fields → List String → Output → Output
  copy_hosts params [] out = out
  copy_hosts params (key ∷ keys) out =
      copy_hosts params keys (set_present key (clean_text_host (property key params)) out)

  unfoldable pub map_domain_register_params : Fields → Output
  unfolding copy_hosts
  map_domain_register_params params =
      copy_hosts params host_keys (("domainid", property "domainid" params) ∷ [])

unfoldable pub map_domain_renew_params : Fields → Output
map_domain_renew_params params =
    ("domainid", property "domainid" params) ∷ ("regperiod", property "regperiod" params) ∷ []

unfoldable pub map_domain_id_protect_params : Fields → Output
map_domain_id_protect_params params =
    ("domainid", property "domainid" params)
    ∷ ("idprotect", some (boolean (is_exactly_true (property "idprotect" params))))
    ∷ []

unfoldable pub map_domain_lock_params : Fields → Output
map_domain_lock_params params =
    ("domainid", property "domainid" params)
    ∷ ("lockstatus", some (boolean (is_exactly_true (property "lockstatus" params))))
    ∷ []
