-- ===== src/Write/Mapping/Services.antt =====
-- src/write/paramMapping.ts: the mappers of the service and order scopes.
use whmcs_mcp_server.Prelude.{
  ◌⊕◌, ℕ, String, Bool, true, false, not, ◌&&◌, Option, none, some, List, [], ◌∷◌, str_eq,
  if◌then◌else◌, length,
}
use whmcs_mcp_server.Prelude.JsNumber.{JsNumber, num_zero, is_finite, lt}
use whmcs_mcp_server.Json.{
  Json, null, boolean, number, text, array, object, nil, cons, Fields, end, field, property,
}
use whmcs_mcp_server.Write.Mapping.Values.{
  Js, Output, set_present, pick_fields, is_exactly_true, normalize_domain, php_serialize_string,
}

pub data MappingError : Type 0 where
  price_restore_is_batch_shaped exactly_one_domain rows_must_be_objects : MappingError
  rows_require_domain_regperiod_price requires_paymentmethod : MappingError
  -- The TypeError of a conversion.
  cannot_convert : MappingError

pub data Mapping : Type 0 where
  mapped : Output → Mapping
  refused : MappingError → Mapping

abbrev pub price_restore_recurring_field : String
price_restore_recurring_field = "recurringamount"

unfoldable pub map_service_price_restore_target : Json → Json → Output
map_service_price_restore_target serviceid new_amount =
    ("serviceid", some serviceid) ∷ (price_restore_recurring_field, some new_amount) ∷ []

unfoldable pub map_service_domain_rename_params : Js → Fields → Output
unfolding normalize_domain
map_service_domain_rename_params js params =
    ("serviceid", property "serviceid" params)
    ∷ ("domain", some (text (normalize_domain js (property "domain" params))))
    ∷ []

-- `typeof v === 'string' && v.trim() !== ''`
abbrev pub unless_blank_text : Js → Option Json → Option String
unless_blank_text js (some (text s)) = if str_eq (js.trim s) "" then none else some s
unless_blank_text js _ = none

abbrev pub as_text : Option String → Option Json
as_text none = none
as_text (some s) = some (text s)

abbrev pub as_trimmed_text : Js → Option String → Option Json
as_trimmed_text js none = none
as_trimmed_text js (some s) = some (text (js.trim s))

unfoldable pub map_service_suspend_params : Js → Fields → Output
map_service_suspend_params js params =
    set_present "suspendreason" (as_text (unless_blank_text js (property "suspendreason" params)))
      (("serviceid", property "serviceid" params) ∷ [])

unfoldable pub map_service_product_set_params : Js → Fields → Output
map_service_product_set_params js params =
    set_present "billingcycle"
      (as_trimmed_text js (unless_blank_text js (property "billingcycle" params)))
      (("serviceid", property "serviceid" params) ∷ ("pid", property "pid" params) ∷ [])

-- `Object.entries(fields).filter(([, v]) => v !== undefined && v !== null)`
abbrev pub set_entries : Fields → List (String × Json)
set_entries end = []
set_entries (field k null fs) = set_entries fs
set_entries (field k v fs) = (k, v) ∷ set_entries fs

abbrev pub add_entry : Js → String → Option String → Option String → Option String
add_entry js k (some v) (some rest) = some (
    (if js.is_digits k then "i:" ⊕ k ⊕ ";" else php_serialize_string js k)
    ⊕ php_serialize_string js v
    ⊕ rest)
add_entry js k _ _ = none

unfoldable pub serialize_entries : Js → List (String × Json) → Option String
serialize_entries js [] = some ""
serialize_entries js ((k, v) ∷ es) = add_entry js k (js.string_of v) (serialize_entries js es)

abbrev pub encode_body : Js → ℕ → Option String → Option String
encode_body js count none = none
encode_body js count (some body) = some (js.base64 ("a:" ⊕ js.show count ⊕ ":{" ⊕ body ⊕ "}"))

-- `none` where the conversion of a value throws.
unfoldable pub encode_service_custom_fields : Js → Fields → Option String
unfolding serialize_entries
encode_service_custom_fields js fs =
    let entries = set_entries fs in encode_body js (length entries) (serialize_entries js entries)

abbrev pub record_or_empty : Option Json → Fields
record_or_empty (some (object fs)) = fs
record_or_empty _ = end

abbrev pub with_text : String → String → Fields → Option String → Mapping
with_text id key params none = refused cannot_convert
with_text id key params (some s) = mapped ((id, property id params) ∷ (key, some (text s)) ∷ [])

unfoldable pub map_service_custom_fields_params : Js → Fields → Mapping
unfolding encode_service_custom_fields
map_service_custom_fields_params js params =
    with_text "serviceid" "customfields" params
      (encode_service_custom_fields js (record_or_empty (property "customfields" params)))

abbrev pub upgrade_field_allowlist : List String
upgrade_field_allowlist =
    "serviceid" ∷ "type" ∷ "newproductid" ∷ "newproductbillingcycle" ∷ "configoptions" ∷ "addonid"
    ∷ "promocode" ∷ "paymentmethod" ∷ []

unfoldable pub map_service_upgrade_params : Fields → Output
unfolding pick_fields
map_service_upgrade_params params = pick_fields params upgrade_field_allowlist

unfoldable pub map_order_accept_params : Fields → Output
map_order_accept_params params =
    ("orderid", property "orderid" params)
    ∷ ("autosetup", some (boolean (is_exactly_true (property "autosetup" params))))
    ∷ ("sendemail", some (boolean (is_exactly_true (property "sendemail" params))))
    ∷ []

pub record OrderRow : Type 0 where
  pub domain : String
  pub regperiod : JsNumber
  pub price : JsNumber

module _ (js : Js) where
  -- `number < 1` for the period is `not (le 1 number)`, of an integer: it is at most 0.
  abbrev pub row_is_good : OrderRow → Bool
  row_is_good row =
      not (str_eq row.domain "")
      && js.is_integer row.regperiod
      && lt num_zero row.regperiod
      && is_finite row.price
      && not (lt row.price num_zero)

  abbrev pub row_with : Fields → Option JsNumber → Option JsNumber → Option OrderRow
  row_with value (some regperiod) (some price) = some (record {
    domain = normalize_domain js (property "domain" value);
    regperiod = regperiod;
    price = price;
  })
  row_with value _ _ = none

  -- `none` where a conversion throws.
  abbrev pub row_of : Fields → Option OrderRow
  row_of value =
      row_with value (js.number_of_value (property "regperiod" value))
        (js.number_of_value (property "price" value))

  abbrev pub one_item : Json → Json
  one_item v = array (cons v nil)

  -- `typeof v === 'string' ? v.trim() : ''`
  abbrev pub trimmed_or_empty : Option Json → String
  trimmed_or_empty (some (text s)) = js.trim s
  trimmed_or_empty _ = ""

  unfoldable pub order_of_row : Fields → OrderRow → Mapping
  order_of_row params row =
      let paymentmethod = trimmed_or_empty (property "paymentmethod" params) in
      if not (row_is_good row)
      then refused rows_require_domain_regperiod_price
      else if str_eq paymentmethod ""
      then refused requires_paymentmethod
      else mapped (
          ("clientid", property "clientid" params)
          ∷ ("domain", some (one_item (text row.domain)))
          ∷ ("domaintype", some (one_item (text "register")))
          ∷ ("regperiod", some (one_item (number row.regperiod)))
          ∷ ("domainpriceoverride", some (one_item (number row.price)))
          ∷ ("paymentmethod", some (text paymentmethod))
          ∷ ("noinvoice", some (boolean false))
          ∷ ("noinvoiceemail", some (boolean true))
          ∷ ("noemail", some (boolean true))
          ∷ [])

  abbrev pub order_of_option : Fields → Option OrderRow → Mapping
  order_of_option params none = refused cannot_convert
  order_of_option params (some row) = order_of_row params row

  -- A row that is an array is an object with none of the fields.
  unfoldable pub order_of : Fields → Option Json → Mapping
  unfolding order_of_row normalize_domain
  order_of params (some (array (cons (object value) nil))) = order_of_option params (row_of value)
  order_of params (some (array (cons (array vs) nil))) = order_of_option params (row_of end)
  order_of params (some (array (cons v nil))) = refused rows_must_be_objects
  order_of params _ = refused exactly_one_domain

  unfoldable pub map_order_create_params : Fields → Mapping
  unfolding order_of
  map_order_create_params params = order_of params (property "domains" params)
