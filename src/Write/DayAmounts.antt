-- ===== src/Write/DayAmounts.antt =====
-- src/write/dayAmountsStore.ts: the tally behind the daily cap. The day is an argument. A file is
-- the list of its lines, `none` where a line does not parse; a failed append is not modelled.
pub mod Restart
use whmcs_mcp_server.Prelude.{
  ℤ, String, Option, none, some, List, [], ◌∷◌, ◌++◌, str_eq, if◌then◌else◌,
}
use whmcs_mcp_server.Prelude.JsMap
use whmcs_mcp_server.Prelude.JsMap.{JsMap}
use whmcs_mcp_server.Prelude.JsNumber.{JsNumber, finite, plus, num_zero}

-- A line's total is `none` when it is no number: a total that is not finite is written as null.
pub record DayAmountsRecord : Type 0 where
  pub key : String
  pub total : Option ℤ
  pub date : String

pub record DayAmountsStore : Type 0 where
  pub totals : JsMap JsNumber
  -- The file's lines, if there is a file.
  pub file : Option (List (Option DayAmountsRecord))

unfoldable pub day_key : String → String → String
day_key action today = Prim.Native.String.◌++◌ action (Prim.Native.String.◌++◌ "|" today)

abbrev pub or_zero : Option JsNumber → JsNumber
or_zero none = num_zero
or_zero (some n) = n

unfoldable pub get_total : String → String → DayAmountsStore → JsNumber
unfolding day_key
get_total action today s = or_zero (JsMap.get (day_key action today) s.totals)

abbrev pub json_number : JsNumber → Option ℤ
json_number (finite a) = some a
json_number _ = none

abbrev pub append_record :
    Option (List (Option DayAmountsRecord))
    → DayAmountsRecord
    → Option (List (Option DayAmountsRecord))
append_record none r = none
append_record (some rs) r = some (rs ++ some r ∷ [])

unfoldable pub add : String → JsNumber → String → DayAmountsStore → DayAmountsStore
unfolding day_key
add action amount today s =
    let key = day_key action today in
    let next = plus (or_zero (JsMap.get key s.totals)) amount in
    record s {
      totals = JsMap.set key next s.totals;
      file = append_record s.file (record { key = key; total = json_number next; date = today });
    }

unfoldable pub reset : DayAmountsStore → DayAmountsStore
reset s = record s { totals = [] }

abbrev pub set_total : String → Option ℤ → JsMap JsNumber → JsMap JsNumber
set_total key none totals = totals
set_total key (some total) totals = JsMap.set key (finite total) totals

-- `loadFromDisk`: the lines of the day, a later one replacing an earlier one of the same key.
unfoldable pub load_record : String → Option DayAmountsRecord → JsMap JsNumber → JsMap JsNumber
load_record today none totals = totals
load_record today (some r) totals =
    if str_eq r.date today then set_total r.key r.total totals else totals

unfoldable pub load_records :
    String → List (Option DayAmountsRecord) → JsMap JsNumber → JsMap JsNumber
unfolding load_record
load_records today [] totals = totals
load_records today (r ∷ rs) totals = load_records today rs (load_record today r totals)

abbrev pub records_of : Option (List (Option DayAmountsRecord)) → List (Option DayAmountsRecord)
records_of none = []
records_of (some rs) = rs

unfoldable pub open_amounts : String → Option (List (Option DayAmountsRecord)) → DayAmountsStore
unfolding load_records
open_amounts today file = record { totals = load_records today (records_of file) []; file = file }
