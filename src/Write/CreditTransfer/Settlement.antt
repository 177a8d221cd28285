-- ===== src/Write/CreditTransfer/Settlement.antt =====
-- src/write/creditTransfer.ts: what follows when both legs have returned.
use whmcs_mcp_server.Prelude.{ℕ, ◌+ℤ◌, ◌-ℤ◌, String, Bool, true, false, Option, none, some, ◌&&◌}
use whmcs_mcp_server.Prelude.JsNumber.{strict_eq}
use whmcs_mcp_server.Write.CreditTransfer.Types.{
  CreditTransferState, CreditTransferRecord, financially_completed, completed,
  audit_repair_required, reconciliation_failed, invoices_changed, audit_artifacts, Failure, find,
}
use whmcs_mcp_server.Write.CreditTransfer.Program.{
  Api, Js, M, Outcome, ok, threw, ClientSnapshot, client_details, attempt, pure, gets, ◌>>=◌, ◌>>◌,
  put_record, credit_by_description, activity_by_description, native_id, log_activity, add_note,
  invoice_count, found_or, credit_read_back_failed,
}
use whmcs_mcp_server.Write.CreditTransfer.Texts.{
  source_description, destination_description, out_activity, in_activity, note,
}
use whmcs_mcp_server.Write.CreditTransfer.Compensation.{Setting, dated, eq_ℤ}

abbrev pub state_if : Bool → CreditTransferState
state_if true = completed
state_if false = audit_repair_required

abbrev pub failure_if : Bool → Option Failure → Option Failure
failure_if true f = f
failure_if false f = some invoices_changed

module _ {W : Type 0} (api : Api W) (js : Js) (set : Setting) where
  -- The last `try` block: activity entries, notes and the check of the invoice counts.
  unfoldable pub artifacts : CreditTransferRecord → ℕ → ℕ → M W CreditTransferRecord
  artifacts r source_credit destination_credit = do
    log_activity api set.source.clientid
        (out_activity js set.subject source_credit destination_credit)
    log_activity api set.destination.clientid
        (in_activity js set.subject source_credit destination_credit)
    source_activity ←
        activity_by_description api (out_activity js set.subject source_credit destination_credit)
    destination_activity ←
        activity_by_description api (in_activity js set.subject source_credit destination_credit)
    source_row ← dated source_activity
    destination_row ← dated destination_activity
    source_activity_id ← native_id source_row.id
    destination_activity_id ← native_id destination_row.id
    source_note ← add_note api set.source.clientid (
        note js set.subject "OUT" source_row.date source_credit destination_credit
          source_activity_id destination_activity_id)
    destination_note ← add_note api set.destination.clientid (
        note js set.subject "IN" source_row.date source_credit destination_credit source_activity_id
          destination_activity_id)
    source_after ← invoice_count api set.source.clientid
    destination_after ← invoice_count api set.destination.clientid
    source_note_id ← native_id source_note
    destination_note_id ← native_id destination_note
    let unchanged =
        strict_eq source_after set.source_invoices
        && strict_eq destination_after set.destination_invoices
    let done = record r {
      state = state_if unchanged;
      whmcs_native_occurred_at = some source_row.date;
      source_activity_id = some source_activity_id;
      destination_activity_id = some destination_activity_id;
      source_note_id = some source_note_id;
      destination_note_id = some destination_note_id;
      invoice_counts = record (r.invoice_counts) {
        source_after = some source_after;
        destination_after = some destination_after;
        unchanged = some unchanged;
      };
      failure = failure_if unchanged r.failure;
    }
    put_record done
    pure done

  abbrev pub mark_original : CreditTransferRecord → Option CreditTransferRecord → M W (Unit {0})
  mark_original done none = pure tt
  mark_original done (some original) =
      put_record (record original { reversed_by_transfer_id = some done.transfer_id })

  abbrev pub mark_reversal :
      CreditTransferState → CreditTransferRecord → Option String → M W CreditTransferRecord
  mark_reversal completed done (some id) = do
    original ← gets (find id)
    mark_original done original
    pure done
  mark_reversal _ done _ = pure done

  unfoldable pub finish :
      CreditTransferRecord → Outcome CreditTransferRecord → M W CreditTransferRecord
  finish r (threw e) = do
    let flagged = record r { state = audit_repair_required; failure = some audit_artifacts }
    put_record flagged
    pure flagged
  finish r (ok done) = mark_reversal done.state done set.subject.reverses

  unfoldable pub balances_correct : ClientSnapshot → ClientSnapshot → Bool
  balances_correct after_source after_destination =
      eq_ℤ after_source.credit (set.source.credit -ℤ set.amount)
      && eq_ℤ after_destination.credit (set.destination.credit +ℤ set.amount)

  unfoldable pub is_conserved : ClientSnapshot → ClientSnapshot → Bool
  is_conserved after_source after_destination =
      eq_ℤ (after_source.credit +ℤ after_destination.credit)
        (set.source.credit +ℤ set.destination.credit)

  -- The checks on the balances have passed or not.
  unfoldable pub reconcile : Bool → CreditTransferRecord → ℕ → ℕ → M W CreditTransferRecord
  reconcile false r source_credit destination_credit = do
    let flagged = record r { state = audit_repair_required; failure = some reconciliation_failed }
    put_record flagged
    pure flagged
  reconcile true r source_credit destination_credit = do
    outcome ← attempt (artifacts r source_credit destination_credit)
    finish r outcome

  unfoldable pub settle : CreditTransferRecord → M W CreditTransferRecord
  settle r = do
    source_found ← credit_by_description api set.source.clientid (source_description js set.subject)
    destination_found ←
        credit_by_description api set.destination.clientid (destination_description js set.subject)
    after_source ← client_details api set.source.clientid
    after_destination ← client_details api set.destination.clientid
    source_entry ← found_or credit_read_back_failed source_found
    destination_entry ← found_or credit_read_back_failed destination_found
    source_credit ← native_id source_entry.id
    destination_credit ← native_id destination_entry.id
    let good =
        balances_correct after_source after_destination
        && is_conserved after_source after_destination
    let posted = record r {
      state = financially_completed;
      source_credit_id = some source_credit;
      destination_credit_id = some destination_credit;
      whmcs_native_credit_date = some source_entry.date;
      balances = record (r.balances) {
        source_after = some after_source.credit;
        destination_after = some after_destination.credit;
        conserved = some good;
      };
    }
    put_record posted
    reconcile good posted source_credit destination_credit
