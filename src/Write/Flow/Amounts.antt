-- ===== src/Write/Flow/Amounts.antt =====
-- src/tools/writeFlow.ts: the monetary context of an intent.
use whmcs_mcp_server.Prelude.{
  String, Bool, ◌&&◌, Option, none, some, List, [], ◌∷◌, str_eq, if◌then◌else◌,
}
use whmcs_mcp_server.Prelude.JsNumber.{JsNumber, nan, num_zero, is_finite, lt, plus}
use whmcs_mcp_server.Json.{Json, number, text, array, object, Fields, property, items}
use whmcs_mcp_server.Write.Types.{AmountContext}
use whmcs_mcp_server.Write.Mapping.Values.{Js}

module _ (js : Js) where
  -- `typeof v === 'number' ? v : Number(v)`
  abbrev pub number_of : Option Json → JsNumber
  number_of (some (number n)) = n
  number_of v = js.to_number v

  -- A finite number above zero.
  abbrev pub is_positive : JsNumber → Bool
  is_positive n = is_finite n && lt num_zero n

  -- One step of the `reduce`. An array has no price.
  unfoldable pub add_price : JsNumber → Json → JsNumber
  add_price sum (object value) =
      let price = number_of (property "price" value) in
      if is_positive price then plus sum price else sum
  add_price sum _ = sum

  unfoldable pub add_prices : JsNumber → List Json → JsNumber
  unfolding add_price
  add_prices sum [] = sum
  add_prices sum (row ∷ rows) = add_prices (add_price sum row) rows

  unfoldable pub order_total : String → Option Json → JsNumber
  unfolding add_prices
  order_total action (some (array rows)) =
      if str_eq action "AddOrder" then add_prices num_zero (items rows) else nan
  order_total action _ = nan

  abbrev pub raw_amount : Option Json → JsNumber
  raw_amount (some (number n)) = n
  raw_amount (some (text s)) = js.to_number (some (text s))
  raw_amount _ = nan

  -- `day_total` is what the store of daily amounts answers for the action.
  unfoldable pub amount_context_for : String → Fields → JsNumber → Option AmountContext
  unfolding order_total
  amount_context_for action params day_total =
      let total = order_total action (property "domains" params) in
      let amount = if is_positive total then total else raw_amount (property "amount" params) in
      if is_positive amount then some (record { amount = amount; day_total = day_total }) else none
