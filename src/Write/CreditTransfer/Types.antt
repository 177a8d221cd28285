-- ===== src/Write/CreditTransfer/Types.antt =====
-- src/write/creditTransfer.ts: the transfer record, the input, and the store of records.
-- Money is an integer number of cents: a text that `money` makes is its cents, and `money` fails on
-- a value that is not finite. Ids and counts are numbers in whole units.
use whmcs_mcp_server.Prelude.{
  ℕ, ℤ, String, Bool, Option, none, some, List, [], ◌∷◌, ◌++◌, str_eq, if◌then◌else◌,
}
use whmcs_mcp_server.Prelude.JsNumber.{JsNumber}
use whmcs_mcp_server.Prelude.JsMap
use whmcs_mcp_server.Prelude.JsMap.{JsMap}

pub data CreditTransferState : Type 0 where
  prepared source_debited financially_completed completed compensated : CreditTransferState
  audit_repair_required : CreditTransferState

pub data ApprovalMode : Type 0 where
  self_approved finance_approved : ApprovalMode

pub record Approval : Type 0 where
  pub mode : ApprovalMode
  pub actor_consumer_id : String
  pub approver_consumer_id : Option String

pub record Balances : Type 0 where
  pub source_before : ℤ
  pub destination_before : ℤ
  pub source_after : Option ℤ
  pub destination_after : Option ℤ
  pub conserved : Option Bool

pub record InvoiceCounts : Type 0 where
  pub source_before : JsNumber
  pub destination_before : JsNumber
  pub source_after : Option JsNumber
  pub destination_after : Option JsNumber
  pub unchanged : Option Bool

-- Why a transfer did not complete; the source keeps the messages in one text.
pub data Failure : Type 0 where
  both_legs_failed leg_failed_compensated compensation_audit : Failure
  reconciliation_failed invoices_changed audit_artifacts : Failure

-- `tax.invoice_created` is always false and is left out.
pub record CreditTransferRecord : Type 0 where
  pub transfer_id : String
  pub request_id : String
  pub source_clientid : ℕ
  pub destination_clientid : ℕ
  pub amount : ℤ
  pub currency : String
  pub reason : String
  pub state : CreditTransferState
  pub approval : Approval
  pub tax_enabled : Bool
  pub reverses_transfer_id : Option String
  pub reversed_by_transfer_id : Option String
  pub whmcs_native_occurred_at : Option String
  pub whmcs_native_credit_date : Option String
  pub source_credit_id : Option ℕ
  pub destination_credit_id : Option ℕ
  pub source_activity_id : Option ℕ
  pub destination_activity_id : Option ℕ
  pub source_note_id : Option ℕ
  pub destination_note_id : Option ℕ
  pub compensation_credit_id : Option ℕ
  pub balances : Balances
  pub invoice_counts : InvoiceCounts
  pub failure : Option Failure

pub record CreditTransferInput : Type 0 where
  pub source_clientid : ℕ
  pub destination_clientid : ℕ
  pub amount : JsNumber
  pub reason : String
  pub request_id : String
  pub approval : Approval
  pub reverses_transfer_id : Option String

-- The file's lines, if there is a file.
pub record CreditTransferStore : Type 0 where
  pub records : JsMap CreditTransferRecord
  pub by_request : JsMap String
  pub journal : Option (List CreditTransferRecord)

abbrev or_blank_id : Option String → String
or_blank_id none = ""
or_blank_id (some id) = id

-- `records.get(id) ?? records.get(byRequest.get(id) ?? '')`
abbrev or_by_request :
    CreditTransferStore → String → Option CreditTransferRecord → Option CreditTransferRecord
or_by_request s id (some r) = some r
or_by_request s id none = JsMap.get (or_blank_id (JsMap.get id s.by_request)) s.records

unfoldable pub find : String → CreditTransferStore → Option CreditTransferRecord
find id s = or_by_request s id (JsMap.get id s.records)

abbrev append_record :
    Option (List CreditTransferRecord) → CreditTransferRecord → Option (List CreditTransferRecord)
append_record none r = none
append_record (some rs) r = some (rs ++ r ∷ [])

-- The two maps after a record is stored.
unfoldable pub enter : CreditTransferRecord → CreditTransferStore → CreditTransferStore
enter r s = record s {
  records = JsMap.set r.transfer_id r s.records;
  by_request = JsMap.set r.request_id r.transfer_id s.by_request;
}

abbrev belongs_elsewhere : Option String → String → Bool
belongs_elsewhere none id = Bool.false
belongs_elsewhere (some other) id = if str_eq other id then Bool.false else Bool.true

-- `none` when the request id belongs to another transfer.
unfoldable pub put : CreditTransferRecord → CreditTransferStore → Option CreditTransferStore
unfolding enter
put r s =
    if belongs_elsewhere (JsMap.get r.request_id s.by_request) r.transfer_id
    then none
    else some (record (enter r s) { journal = append_record s.journal r })

-- The constructor's loop over the file's lines.
unfoldable pub load_records : List CreditTransferRecord → CreditTransferStore → CreditTransferStore
unfolding enter
load_records [] s = s
load_records (r ∷ rs) s = load_records rs (enter r s)

unfoldable pub clear : CreditTransferStore → CreditTransferStore
clear s = record s { records = []; by_request = [] }
