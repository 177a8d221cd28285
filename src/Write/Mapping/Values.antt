-- ===== src/Write/Mapping/Values.antt =====
-- src/write/paramMapping.ts: the helpers of the mappers.
-- The object that a mapper builds is a `Map` from its keys to their values, `none` for a key whose
-- value is `undefined`. JavaScript's own conversions and the hash are parameters. The fields of an
-- object come in the order in which `Object.entries` lists them.
use whmcs_mcp_server.Prelude.{
  ◌⊕◌, ℕ, pos, String, Bool, true, false, not, ◌&&◌, Option, none, some, List, [], ◌∷◌, str_eq,
  if◌then◌else◌,
}
use whmcs_mcp_server.Prelude.JsNumber.{JsNumber, finite, num_zero, is_finite, strict_eq}
use whmcs_mcp_server.Prelude.JsMap
use whmcs_mcp_server.Prelude.JsMap.{JsMap}
use whmcs_mcp_server.Json.{
  Json, null, boolean, number, text, array, object, Fields, end, property, items,
}

pub record Js : Type 0 where
  -- `String(n)` of a count and of a number, and of the id of a service, which is a number
  pub show : ℕ → String
  pub show_number : JsNumber → String
  pub show_value : Json → String
  -- `String(v)`, `Number(v)` and `array.join(',')` of any values: `none` where they throw, as on an
  -- object without a usable `toString`
  pub string_of : Json → Option String
  pub number_of_value : Option Json → Option JsNumber
  pub join : List Json → Option String
  -- `Number(v)` of a text or of an amount, and `Number.isInteger`
  pub to_number : Option Json → JsNumber
  pub is_integer : JsNumber → Bool
  pub trim : String → String
  pub lower_case : String → String
  -- `s.endsWith('.')` and `s.slice(0, -1)`
  pub ends_with_dot : String → Bool
  pub drop_last : String → String
  -- `/^\d+$/.test(s)`
  pub is_digits : String → Bool
  -- `array.join(',')` of the ids of services
  pub join_by_commas : List Json → String
  -- `Buffer.byteLength` and the base64 of a text's bytes
  pub byte_length : String → ℕ
  pub base64 : String → String
  -- The first 16 hex digits of the SHA-256.
  pub short_hash : String → String

abbrev pub Output : Type 0
Output = JsMap (Option Json)

abbrev pub whole : ℕ → Json
whole n = number (finite (pos n))

abbrev pub key_or_noop : Option String → String
key_or_noop none = "noop"
key_or_noop (some key) = if str_eq key "" then "noop" else key

unfoldable pub deterministic_trans_id : Js → String → Option String → String
deterministic_trans_id js prefix key = prefix ⊕ "-" ⊕ js.short_hash (prefix ⊕ "|" ⊕ key_or_noop key)

abbrev pub as_record : Json → Fields
as_record (object fs) = fs
as_record _ = end

unfoldable pub safe_id_part : Js → Option Json → String → String
safe_id_part js (some (text s)) fallback = if str_eq s "" then fallback else s
safe_id_part js (some (number n)) fallback = if is_finite n then js.show_number n else fallback
safe_id_part js _ fallback = fallback

-- `if (value !== undefined) out[key] = value;`
abbrev pub set_present : String → Option Json → Output → Output
set_present key none out = out
set_present key (some v) out = JsMap.set key (some v) out

-- The loop of `pickFields`, `pickClientFields` and the contact mappers.
unfoldable pub pick_into : Fields → List String → Output → Output
pick_into params [] out = out
pick_into params (key ∷ allow) out =
    pick_into params allow (set_present key (property key params) out)

unfoldable pub pick_fields : Fields → List String → Output
unfolding pick_into
pick_fields params allow = pick_into params allow []

-- `Array.isArray(v) ? v : []`
abbrev pub array_or_empty : Option Json → List Json
array_or_empty (some (array vs)) = items vs
array_or_empty _ = []

-- A value used as a condition.
abbrev pub is_truthy : Json → Bool
is_truthy null = false
is_truthy (boolean b) = b
is_truthy (number n) = strict_eq n n && not (strict_eq n num_zero)
is_truthy (text s) = not (str_eq s "")
is_truthy _ = true

-- `v === true`
abbrev pub is_exactly_true : Option Json → Bool
is_exactly_true (some (boolean b)) = b
is_exactly_true _ = false

unfoldable pub normalize_domain : Js → Option Json → String
normalize_domain js (some (text raw)) =
    let d = js.lower_case (js.trim raw) in if js.ends_with_dot d then js.drop_last d else d
normalize_domain js _ = ""

abbrev pub php_serialize_string : Js → String → String
php_serialize_string js value = "s:" ⊕ js.show (js.byte_length value) ⊕ ":\"" ⊕ value ⊕ "\";"
