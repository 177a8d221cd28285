-- ===== src/Write/CreditTransfer/Execute.antt =====
-- src/write/creditTransfer.ts: `executeUnlocked`. The random id of a transfer is an argument.
use whmcs_mcp_server.Prelude.{
  ℤ, pos, String, Bool, true, false, Option, none, some, ◌&&◌, ◌||◌, not, if◌then◌else◌, ltb_ℤ,
  str_eq, ◌==◌,
}
use whmcs_mcp_server.Prelude.JsNumber.{JsNumber}
use whmcs_mcp_server.Write.CreditTransfer.Types.{
  CreditTransferState, prepared, source_debited, completed, CreditTransferRecord,
  CreditTransferInput, ApprovalMode, finance_approved, self_approved, find,
}
use whmcs_mcp_server.Write.CreditTransfer.Program.{
  Api, Js, M, Outcome, ok, threw, ClientSnapshot, add, remove, add_credit, client_details, attempt,
  pure, throw, gets, require, money, ◌>>=◌, ◌>>◌, put_record, tax_enabled, invoice_count,
  replayed_with_different_parameters, needs_reconciliation, original_not_found, already_reversed,
  same_client, amount_not_positive, not_active, currency_mismatch, insufficient_credit,
}
use whmcs_mcp_server.Write.CreditTransfer.Texts.{source_description, destination_description}
use whmcs_mcp_server.Write.CreditTransfer.Compensation.{Setting, compensate, eq_ℤ}
use whmcs_mcp_server.Write.CreditTransfer.Settlement.{settle}

-- `resolveCreditTransferApprovalPolicy`: required, recommended.
unfoldable pub resolve_approval_policy :
    (tax_enabled require_finance require_when_tax : Bool) → Bool × Bool
resolve_approval_policy tax_enabled require_finance require_when_tax =
    (require_finance || tax_enabled && require_when_tax, tax_enabled)

abbrev pub same_id : Option String → Option String → Bool
same_id none none = true
same_id (some a) (some b) = str_eq a b
same_id _ _ = false

-- The two halves of `assertRecordMatches`; `money` of the input's amount stands between them.
unfoldable pub clients_match : CreditTransferRecord → CreditTransferInput → Bool
clients_match r input =
    r.source_clientid == input.source_clientid
    && r.destination_clientid == input.destination_clientid

unfoldable pub rest_matches : Js → CreditTransferRecord → CreditTransferInput → ℤ → Bool
rest_matches js r input amount =
    eq_ℤ r.amount amount
    && str_eq r.reason (js.safe_text input.reason)
    && same_id r.reverses_transfer_id input.reverses_transfer_id

abbrev pub is_completed : CreditTransferState → Bool
is_completed completed = true
is_completed _ = false

abbrev pub is_none_id : Option String → Bool
is_none_id none = true
is_none_id (some s) = str_eq s ""

abbrev pub approver_text : Js → ApprovalMode → Option String → String
approver_text js self_approved who = "self-approved"
approver_text js finance_approved none = js.safe_text "authorized approver"
approver_text js finance_approved (some who) = js.safe_text who

-- `id ? id : undefined`
abbrev pub truthy_id : Option String → Option String
truthy_id none = none
truthy_id (some s) = if str_eq s "" then none else some s

abbrev pub transfer_prefix : Option String → String
transfer_prefix none = "CT-"
transfer_prefix (some id) = "CTR-"

module _ {W : Type 0} (js : Js) where
  unfoldable pub replay : CreditTransferInput → CreditTransferRecord → M W CreditTransferRecord
  replay input existing = do
    require (clients_match existing input) replayed_with_different_parameters
    amount ← money input.amount
    require (rest_matches js existing input amount) replayed_with_different_parameters
    if is_completed existing.state
        then pure existing
        else throw (needs_reconciliation existing.state)

  -- A reversal takes its clients, swapped, and its amount from the completed original.
  unfoldable pub reverse_of :
      CreditTransferInput → Option CreditTransferRecord → M W CreditTransferInput
  reverse_of input none = throw original_not_found
  reverse_of input (some original) = do
    require (is_completed original.state) original_not_found
    require (is_none_id original.reversed_by_transfer_id) already_reversed
    pure (record input {
      source_clientid = original.destination_clientid;
      destination_clientid = original.source_clientid;
      amount = JsNumber.finite original.amount;
    })

  unfoldable pub resolve_reversal : CreditTransferInput → Option String → M W CreditTransferInput
  resolve_reversal input none = pure input
  resolve_reversal input (some id) =
      let found = gets (find id) >>= reverse_of input in if str_eq id "" then pure input else found

module _ {W : Type 0} (api : Api W) (js : Js) where
  -- The checks on both clients, and what is known when they have passed.
  unfoldable pub check_clients : CreditTransferInput → ℤ → M W (ClientSnapshot × ClientSnapshot)
  check_clients input amount = do
    source ← client_details api input.source_clientid
    destination ← client_details api input.destination_clientid
    require (str_eq source.status "Active" && str_eq destination.status "Active") not_active
    require (not (str_eq source.currency "") && str_eq source.currency destination.currency)
        currency_mismatch
    require (not (ltb_ℤ source.credit amount)) insufficient_credit
    pure (source, destination)

  abbrev pub new_record :
      String
      → CreditTransferInput
      → ℤ
      → ClientSnapshot
      → ClientSnapshot
      → Bool
      → JsNumber
      → JsNumber
      → CreditTransferRecord
  new_record transfer_id input amount source destination tax source_invoices destination_invoices =
      record {
        transfer_id = transfer_id;
        request_id = input.request_id;
        source_clientid = source.clientid;
        destination_clientid = destination.clientid;
        amount = amount;
        currency = source.currency;
        reason = js.safe_text input.reason;
        state = prepared;
        approval = input.approval;
        tax_enabled = tax;
        reverses_transfer_id = truthy_id input.reverses_transfer_id;
        reversed_by_transfer_id = none;
        whmcs_native_occurred_at = none;
        whmcs_native_credit_date = none;
        source_credit_id = none;
        destination_credit_id = none;
        source_activity_id = none;
        destination_activity_id = none;
        source_note_id = none;
        destination_note_id = none;
        compensation_credit_id = none;
        balances = record {
          source_before = source.credit;
          destination_before = destination.credit;
          source_after = none;
          destination_after = none;
          conserved = none;
        };
        invoice_counts = record {
          source_before = source_invoices;
          destination_before = destination_invoices;
          source_after = none;
          destination_after = none;
          unchanged = none;
        };
        failure = none;
      }

  abbrev pub new_setting :
      String
      → CreditTransferInput
      → ℤ
      → ClientSnapshot
      → ClientSnapshot
      → JsNumber
      → JsNumber
      → Setting
  new_setting transfer_id input amount source destination source_invoices destination_invoices =
      record {
        subject = record {
          transfer_id = transfer_id;
          source = source.clientid;
          destination = destination.clientid;
          amount = amount;
          currency = source.currency;
          reverses = truthy_id input.reverses_transfer_id;
          reason = js.safe_text input.reason;
          actor = js.safe_text input.approval.actor_consumer_id;
          approval = approver_text js input.approval.mode input.approval.approver_consumer_id;
        };
        source = source;
        destination = destination;
        amount = amount;
        source_invoices = source_invoices;
        destination_invoices = destination_invoices;
      }

  -- All that comes before money moves; the prepared record is stored.
  unfoldable pub prepare : CreditTransferInput → String → M W (Setting × CreditTransferRecord)
  prepare given uuid = do
    input ← resolve_reversal js given given.reverses_transfer_id
    require (not (input.source_clientid == input.destination_clientid)) same_client
    amount ← money input.amount
    require (ltb_ℤ (pos 0) amount) amount_not_positive
    (source, destination) ← check_clients input amount
    tax ← tax_enabled api js
    source_invoices ← invoice_count api source.clientid
    destination_invoices ← invoice_count api destination.clientid
    let transfer_id =
        Prim.Native.String.◌++◌ (transfer_prefix (truthy_id input.reverses_transfer_id)) uuid
    let r =
        new_record transfer_id input amount source destination tax source_invoices
          destination_invoices
    put_record r
    pure (
      new_setting transfer_id input amount source destination source_invoices destination_invoices,
      r,
    )

  unfoldable pub after_destination_leg :
      Setting → CreditTransferRecord → Outcome (Unit {0}) → M W CreditTransferRecord
  after_destination_leg set r (ok done) = settle api js set r
  after_destination_leg set r (threw e) = compensate api js set r

  unfoldable pub destination_leg : Setting → CreditTransferRecord → M W CreditTransferRecord
  destination_leg set r = do
    leg ← attempt (
        add_credit api set.destination.clientid (destination_description js set.subject) set.amount
          add)
    after_destination_leg set r leg

  -- The debit, then the credit, which is compensated if it throws.
  unfoldable pub run_legs : Setting × CreditTransferRecord → M W CreditTransferRecord
  run_legs (set, r) = do
    add_credit api set.source.clientid (source_description js set.subject) set.amount remove
    let debited = record r { state = source_debited }
    put_record debited
    destination_leg set debited

  unfoldable pub start_or_replay :
      CreditTransferInput → String → Option CreditTransferRecord → M W CreditTransferRecord
  start_or_replay input uuid (some existing) = replay js input existing
  start_or_replay input uuid none = do ready ← prepare input uuid; run_legs ready

  unfoldable pub execute_unlocked : CreditTransferInput → String → M W CreditTransferRecord
  execute_unlocked input uuid = do
    existing ← gets (find input.request_id)
    start_or_replay input uuid existing
