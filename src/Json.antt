-- ===== src/Json.antt =====
-- JSON values, as the tools receive them and the WHMCS API returns them. An object's fields are in
-- insertion order.
use whmcs_mcp_server.Prelude.{
  String, Bool, List, [], ◌∷◌, Option, none, some, str_eq, if◌then◌else◌,
}
use whmcs_mcp_server.Prelude.JsNumber.{JsNumber}

mutual
  pub data Json : Type 0 where
    null : Json
    boolean : Bool → Json
    number : JsNumber → Json
    text : String → Json
    array : Items → Json
    object : Fields → Json

  pub data Items : Type 0 where
    nil : Items
    cons : Json → Items → Items

  pub data Fields : Type 0 where
    end : Fields
    field : String → Json → Fields → Fields

abbrev pub items : Items → List Json
items nil = []
items (cons v vs) = v ∷ items vs

-- `object[name]`, `none` for `undefined`.
abbrev pub property : String → Fields → Option Json
property name end = none
property name (field k v fs) = if str_eq k name then some v else property name fs
