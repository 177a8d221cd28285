-- ===== src/Write/Flow/Products.antt =====
-- src/tools/writeFlow.ts: what is read of a GetClientsProducts response.
use whmcs_mcp_server.Prelude.{
  String, Bool, true, false, ◌||◌, Option, none, some, str_eq, if◌then◌else◌,
}
use whmcs_mcp_server.Json.{Json, text, array, object, cons, Fields, property}
use whmcs_mcp_server.Write.Mapping.Values.{Js, as_record, is_truthy, normalize_domain}

-- `list?.[0]`, `none` where it is falsy.
abbrev pub first_of : Option Json → Option Fields
first_of (some (array (cons v vs))) = if is_truthy v then some (as_record v) else none
first_of _ = none

abbrev pub product_of : Option Json → Option Fields
product_of (some (object products)) = first_of (property "product" products)
product_of _ = none

-- `resp.products?.product?.[0]`
unfoldable pub first_product : Fields → Option Fields
first_product resp = product_of (property "products" resp)

abbrev pub is_text : String → Option Json → Bool
is_text s (some (text t)) = str_eq t s
is_text s _ = false

-- A service that may not change.
unfoldable pub is_closed : Fields → Bool
is_closed p =
    let status = property "domainstatus" p in
    is_text "Terminated" status || is_text "Cancelled" status

module _ (js : Js) where
  unfoldable pub same_domain : Option Json → Option Json → Bool
  same_domain a b = str_eq (normalize_domain js a) (normalize_domain js b)

  -- The test on `expected_old_domain`, which is skipped where it is missing or blank.
  unfoldable pub has_expected_domain : Option Json → Fields → Bool
  unfolding same_domain
  has_expected_domain (some (text expected)) p =
      str_eq (js.trim expected) "" || same_domain (property "domain" p) (some (text expected))
  has_expected_domain _ p = true
