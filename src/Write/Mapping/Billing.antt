-- ===== src/Write/Mapping/Billing.antt =====
-- src/write/paramMapping.ts: the mappers of the billing scopes.
use whmcs_mcp_server.Prelude.{
  ◌⊕◌, ℕ, suc, String, Bool, true, Option, none, some, List, [], ◌∷◌, str_eq, if◌then◌else◌, length,
}
use whmcs_mcp_server.Prelude.JsNumber.{JsNumber, num_zero, is_finite}
use whmcs_mcp_server.Prelude.JsMap
use whmcs_mcp_server.Json.{Json, null, boolean, number, text, array, Fields, property, items}
use whmcs_mcp_server.Write.Mapping.Values.{
  Js, Output, whole, as_record, safe_id_part, deterministic_trans_id, set_present, pick_fields,
  array_or_empty, is_truthy, is_exactly_true, php_serialize_string,
}

abbrev pub invoice_create_field_allowlist : List String
invoice_create_field_allowlist =
    "userid" ∷ "status" ∷ "date" ∷ "duedate" ∷ "paymentmethod" ∷ "taxrate" ∷ "taxrate2" ∷ "notes"
    ∷ []

-- `it.taxed !== undefined ? (it.taxed ? 1 : 0)`
abbrev pub taxed_flag : Option Json → Option Json
taxed_flag none = none
taxed_flag (some v) = some (if is_truthy v then whole 1 else whole 0)

module _ (js : Js) where
  unfoldable pub flatten_item : ℕ → Fields → Output → Output
  flatten_item idx it out =
      set_present ("itemtaxed" ⊕ js.show idx) (taxed_flag (property "taxed" it)) (
        JsMap.set ("itemamount" ⊕ js.show idx) (property "amount" it)
          (JsMap.set ("itemdescription" ⊕ js.show idx) (property "description" it) out))

  -- `forEach`, from the index of the first item.
  unfoldable pub flatten_items : ℕ → List Json → Output → Output
  unfolding flatten_item
  flatten_items idx [] out = out
  flatten_items idx (item ∷ rest) out =
      flatten_items (suc idx) rest (flatten_item idx (as_record item) out)

  unfoldable pub map_invoice_create_params : Fields → Output
  unfolding flatten_items pick_fields
  map_invoice_create_params params =
      flatten_items 1 (array_or_empty (property "items" params))
        (pick_fields params invoice_create_field_allowlist)

  -- `v !== undefined && v !== '' && v !== null`
  abbrev pub unless_blank : Option Json → Option Json
  unless_blank none = none
  unless_blank (some null) = none
  unless_blank (some (text s)) = if str_eq s "" then none else some (text s)
  unless_blank (some v) = some v

  abbrev pub or_value : Option Json → Json → Json
  or_value none v = v
  or_value (some w) v = w

  unfoldable pub map_invoice_payment_params : Fields → Option String → Output
  unfolding pick_fields deterministic_trans_id safe_id_part
  map_invoice_payment_params params key =
      let transid = or_value (unless_blank (property "transid" params)) (
        text (
          deterministic_trans_id js ("PAY-" ⊕ safe_id_part js (property "invoiceid" params) "noinv")
            key)) in
      set_present "gateway" (unless_blank (property "gateway" params)) (
        JsMap.set "transid" (some transid)
          (pick_fields params ("invoiceid" ∷ "amount" ∷ "date" ∷ [])))

  unfoldable pub map_credit_add_params : Fields → Output
  map_credit_add_params params =
      ("clientid", property "clientid" params)
      ∷ ("amount", property "amount" params)
      ∷ ("description", property "description" params)
      ∷ []

  abbrev pub refund_description : Option Json → Json
  refund_description (some (text s)) = if str_eq (js.trim s) "" then text "Refund" else text s
  refund_description _ = text "Refund"

  -- `refundType === 'Credit'`
  abbrev pub is_credit : Option Json → Bool
  is_credit (some (text s)) = str_eq s "Credit"
  is_credit _ = Bool.false

  unfoldable pub map_refund_record_params : Fields → Option String → Output
  unfolding deterministic_trans_id safe_id_part
  map_refund_record_params params key =
      let transid =
        deterministic_trans_id js
          ("REFUND-" ⊕ safe_id_part js (property "invoiceid" params) "noinv") key in
      let base =
        ("invoiceid", property "invoiceid" params)
        ∷ ("amountout", property "amount" params)
        ∷ ("description", some (refund_description (property "description" params)))
        ∷ ("paymentmethod", property "paymentmethod" params)
        ∷ ("transid", some (text transid))
        ∷ [] in
      if is_credit (property "refund_type" params)
      then JsMap.set "credit" (some (boolean true)) base
      else base

  abbrev pub finite_or_0 : JsNumber → JsNumber
  finite_or_0 n = if is_finite n then n else num_zero

  unfoldable pub normalize_quote_amount : Option Json → JsNumber
  normalize_quote_amount (some (number n)) = finite_or_0 n
  normalize_quote_amount (some (text s)) =
      if str_eq (js.trim s) "" then num_zero else finite_or_0 (js.to_number (some (text s)))
  normalize_quote_amount _ = num_zero

  abbrev pub text_or_empty : Option Json → String
  text_or_empty (some (text s)) = s
  text_or_empty _ = ""

  unfoldable pub serialize_item : ℕ → Fields → String
  unfolding normalize_quote_amount
  serialize_item index it =
      "i:"
      ⊕ js.show index
      ⊕ ";a:5:{"
      ⊕ php_serialize_string js "desc"
      ⊕ php_serialize_string js (text_or_empty (property "description" it))
      ⊕ php_serialize_string js "qty"
      ⊕ "i:1;"
      ⊕ php_serialize_string js "up"
      ⊕ "d:"
      ⊕ js.show_number (normalize_quote_amount (property "amount" it))
      ⊕ ";"
      ⊕ php_serialize_string js "discount"
      ⊕ "d:0;"
      ⊕ php_serialize_string js "taxable"
      ⊕ "b:"
      ⊕ (if is_exactly_true (property "taxed" it) then "1" else "0")
      ⊕ ";}"

  unfoldable pub serialize_items : ℕ → List Json → String
  unfolding serialize_item
  serialize_items index [] = ""
  serialize_items index (item ∷ rest) =
      serialize_item index (as_record item) ⊕ serialize_items (suc index) rest

  unfoldable pub encode_quote_line_items : List Json → String
  unfolding serialize_items
  encode_quote_line_items vs =
      js.base64 ("a:" ⊕ js.show (length vs) ⊕ ":{" ⊕ serialize_items 0 vs ⊕ "}")

  abbrev pub quote_create_field_allowlist : List String
  quote_create_field_allowlist =
      "subject" ∷ "stage" ∷ "validuntil" ∷ "userid" ∷ "firstname" ∷ "lastname" ∷ "companyname"
      ∷ "email" ∷ "currency" ∷ "datecreated" ∷ "customernotes" ∷ []

  unfoldable pub map_quote_create_params : Fields → Output
  unfolding pick_fields encode_quote_line_items
  map_quote_create_params params =
      JsMap.set "lineitems"
        (some (text (encode_quote_line_items (array_or_empty (property "items" params)))))
        (pick_fields params quote_create_field_allowlist)

  abbrev pub quote_update_field_allowlist : List String
  quote_update_field_allowlist =
      "quoteid" ∷ "subject" ∷ "stage" ∷ "validuntil" ∷ "currency" ∷ "customernotes" ∷ []

  -- `Array.isArray(v)`: the encoded items, if they are an array.
  abbrev pub encoded_items : Option Json → Option Json
  encoded_items (some (array vs)) = some (text (encode_quote_line_items (items vs)))
  encoded_items _ = none

  unfoldable pub map_quote_update_params : Fields → Output
  unfolding pick_fields encode_quote_line_items
  map_quote_update_params params =
      set_present "lineitems" (encoded_items (property "items" params))
        (pick_fields params quote_update_field_allowlist)

abbrev pub billable_item_field_allowlist : List String
billable_item_field_allowlist =
    "clientid" ∷ "description" ∷ "amount" ∷ "recur" ∷ "recurcycle" ∷ "recurfor" ∷ "invoiceaction"
    ∷ "duedate" ∷ []

unfoldable pub map_billable_item_params : Fields → Output
unfolding pick_fields
map_billable_item_params params = pick_fields params billable_item_field_allowlist

-- `mapPaymentCaptureParams`, `mapQuoteSendParams` and every other mapper that copies one key.
unfoldable pub copy_key : String → Fields → Output
copy_key key params = (key, property key params) ∷ []

unfoldable pub map_credit_apply_params : Fields → Output
map_credit_apply_params params =
    ("invoiceid", property "invoiceid" params) ∷ ("amount", property "amount" params) ∷ []
