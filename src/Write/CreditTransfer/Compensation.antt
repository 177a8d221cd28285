-- ===== src/Write/CreditTransfer/Compensation.antt =====
-- src/write/creditTransfer.ts: what follows when the destination leg throws.
use whmcs_mcp_server.Prelude.{ℤ, Bool, Option, none, some, ◌&&◌, ltb_ℤ, not, if◌then◌else◌, str_eq}
use whmcs_mcp_server.Prelude.JsNumber.{JsNumber, strict_eq}
use whmcs_mcp_server.Write.CreditTransfer.Types.{
  CreditTransferRecord, compensated, audit_repair_required, both_legs_failed,
  leg_failed_compensated, compensation_audit,
}
use whmcs_mcp_server.Write.CreditTransfer.Program.{
  Api, Js, M, Outcome, ok, threw, Row, ClientSnapshot, add, add_credit, client_details, attempt,
  pure, throw, ◌>>=◌, ◌>>◌, put_record, credit_by_description, activity_by_description, native_id,
  log_activity, add_note, invoice_count, found_or, credit_read_back_failed,
  activity_read_back_failed,
}
use whmcs_mcp_server.Write.CreditTransfer.Texts.{
  Subject, source_description, compensation_description, failed_out_activity, failed_in_activity,
  note,
}

-- `cents(a) === cents(b)`
abbrev pub eq_ℤ : ℤ → ℤ → Bool
eq_ℤ a b = not (ltb_ℤ a b) && not (ltb_ℤ b a)

-- An activity row with a date.
unfoldable pub dated : {W : Type 0} → Option Row → M W Row
dated none = throw activity_read_back_failed
dated (some r) = if str_eq r.date "" then throw activity_read_back_failed else pure r

-- What the executor holds when the legs begin.
pub record Setting : Type 0 where
  pub subject : Subject
  pub source : ClientSnapshot
  pub destination : ClientSnapshot
  pub amount : ℤ
  pub source_invoices : JsNumber
  pub destination_invoices : JsNumber

module _ {W : Type 0} (api : Api W) (js : Js) (set : Setting) where
  -- The `try` block that leaves the audit artifacts of a compensated transfer.
  unfoldable pub compensation_artifacts : CreditTransferRecord → M W CreditTransferRecord
  compensation_artifacts r = do
    debit ← credit_by_description api set.source.clientid (source_description js set.subject)
    credit ← credit_by_description api set.source.clientid (compensation_description js set.subject)
    debit_row ← found_or credit_read_back_failed debit
    credit_row ← found_or credit_read_back_failed credit
    debit_id ← native_id debit_row.id
    credit_id ← native_id credit_row.id
    log_activity api set.source.clientid (failed_out_activity js set.subject debit_id credit_id)
    log_activity api set.destination.clientid (failed_in_activity js set.subject)
    source_activity ←
        activity_by_description api (failed_out_activity js set.subject debit_id credit_id)
    destination_activity ← activity_by_description api (failed_in_activity js set.subject)
    source_row ← dated source_activity
    destination_row ← dated destination_activity
    source_activity_id ← native_id source_row.id
    destination_activity_id ← native_id destination_row.id
    source_note ← add_note api set.source.clientid (
        note js set.subject "OUT failed and compensated." source_row.date debit_id credit_id
          source_activity_id destination_activity_id)
    destination_note ← add_note api set.destination.clientid (
        note js set.subject "IN failed before posting; source compensated." source_row.date debit_id
          credit_id source_activity_id destination_activity_id)
    source_after ← invoice_count api set.source.clientid
    destination_after ← invoice_count api set.destination.clientid
    source_note_id ← native_id source_note
    destination_note_id ← native_id destination_note
    let done = record r {
      whmcs_native_occurred_at = some source_row.date;
      whmcs_native_credit_date = some debit_row.date;
      source_credit_id = some debit_id;
      compensation_credit_id = some credit_id;
      source_activity_id = some source_activity_id;
      destination_activity_id = some destination_activity_id;
      source_note_id = some source_note_id;
      destination_note_id = some destination_note_id;
      invoice_counts = record (r.invoice_counts) {
        source_after = some source_after;
        destination_after = some destination_after;
        unchanged = some (
            strict_eq source_after set.source_invoices
            && strict_eq destination_after set.destination_invoices);
      };
    }
    put_record done
    pure done

  unfoldable pub keep_or_flag :
      CreditTransferRecord → Outcome CreditTransferRecord → M W CreditTransferRecord
  keep_or_flag r (ok done) = pure done
  keep_or_flag r (threw e) = do
    let flagged = record r { state = audit_repair_required; failure = some compensation_audit }
    put_record flagged
    pure flagged

  -- The first `try` of the handler.
  unfoldable pub compensate_source : M W ClientSnapshot
  compensate_source = do
    add_credit api set.source.clientid (compensation_description js set.subject) set.amount add
    client_details api set.source.clientid

  unfoldable pub after_compensation :
      CreditTransferRecord → Outcome ClientSnapshot → M W CreditTransferRecord
  after_compensation r (threw e) = do
    let flagged = record r { state = audit_repair_required; failure = some both_legs_failed }
    put_record flagged
    pure flagged
  after_compensation r (ok snapshot) = do
    let back = record r {
      state = compensated;
      balances = record (r.balances) {
        source_after = some snapshot.credit;
        destination_after = some set.destination.credit;
        conserved = some (eq_ℤ snapshot.credit set.source.credit);
      };
      failure = some leg_failed_compensated;
    }
    put_record back
    artifacts ← attempt (compensation_artifacts back)
    keep_or_flag back artifacts

  -- The handler of the destination leg.
  unfoldable pub compensate : CreditTransferRecord → M W CreditTransferRecord
  compensate r = do snapshot ← attempt compensate_source; after_compensation r snapshot
