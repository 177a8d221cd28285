-- ===== src/Write/CreditTransfer/Tests.antt =====
-- A transfer of 10.00 over a WHMCS whose second credit call fails.
use whmcs_mcp_server.Prelude.{ℕ, suc, pos, ◌≡◌, refl, true, false, none, some, [], ◌∷◌, ◌==◌, not}
use whmcs_mcp_server.Prelude.JsMap
use whmcs_mcp_server.Prelude.JsNumber.{finite}
use whmcs_mcp_server.Write.CreditTransfer.Types.{
  CreditTransferRecord, CreditTransferInput, completed, self_approved, find, put, enter,
}
use whmcs_mcp_server.Write.CreditTransfer.Program.{
  Api, Js, Machine, add, remove, ok, client_details, money, tax_enabled, bool_setting,
  invoice_count, require, pure, throw, gets, call, attempt, put_record, add_credit,
  credit_by_description, found_or, ◌>>=◌,
}
use whmcs_mcp_server.Write.CreditTransfer.Compensation.{
  compensate, compensate_source, after_compensation, compensation_artifacts, keep_or_flag, dated,
}
use whmcs_mcp_server.Write.CreditTransfer.Execute.{
  execute_unlocked, start_or_replay, prepare, resolve_reversal, check_clients, run_legs,
  destination_leg, after_destination_leg,
}
use whmcs_mcp_server.Write.CreditTransfer.Conserved.{
  IsRun, IsConserved, IsSame, execute_unlocked-IsRun, execute_unlocked-IsConserved,
  execute_unlocked-replayed,
}

-- The state of this WHMCS counts the credit calls; the second one throws.
abbrev failing : Api ℕ
failing = record {
  get_clients_details = λ id w. (
    some (record {
      status = "Active";
      currency_code = "EUR";
      currency = "";
      credit = finite (pos 5000);
    }),
    w,
  );
  get_invoices_total = λ id w. (some (finite (pos 3)), w);
  get_tax_enabled = λ w. (some "", w);
  get_credits = λ id w. (some [], w);
  get_activity_log = λ s w. (some [], w);
  add_credit = λ id s amount type w. (not (w == 1), suc w);
  log_activity = λ id s w. (true, w);
  add_client_note = λ id s w. (some (finite (pos 1)), w);
}

abbrev texts : Js
texts = record { show = λ n. "n"; show_money = λ a. "m"; trim_lower = λ s. s; safe_text = λ s. s }

abbrev input : CreditTransferInput
input = record {
  source_clientid = 1;
  destination_clientid = 2;
  amount = finite (pos 1000);
  reason = "refund";
  request_id = "request-1";
  approval = record {
    mode = self_approved;
    actor_consumer_id = "ops";
    approver_consumer_id = none;
  };
  reverses_transfer_id = none;
}

abbrev fresh : Machine ℕ
fresh = record {
  whmcs = 0;
  store = record { records = []; by_request = []; journal = none };
  calls = [];
}

-- The debit is returned to the source.
calls_made :
    (execute_unlocked failing texts input "1" fresh).1.calls
    ≡ record { clientid = 1; amount = pos 1000; type = remove; returned = true }
      ∷ record { clientid = 2; amount = pos 1000; type = add; returned = false }
      ∷ record { clientid = 1; amount = pos 1000; type = add; returned = true }
      ∷ []
unfolding execute_unlocked start_or_replay prepare resolve_reversal check_clients client_details
    money tax_enabled bool_setting invoice_count require pure throw gets call attempt put_record put
    enter find add_credit run_legs destination_leg after_destination_leg compensate
    compensate_source after_compensation compensation_artifacts keep_or_flag credit_by_description
    found_or dated ◌>>=◌ JsMap.get JsMap.set
calls_made = refl

execute_unlocked-IsRun_example :
    IsRun failing fresh.store input
      (execute_unlocked failing texts input "1" fresh).0
      []
      (execute_unlocked failing texts input "1" fresh).1.calls
execute_unlocked-IsRun_example = execute_unlocked-IsRun failing texts input "1" fresh

execute_unlocked-IsConserved_example :
    IsConserved
      (execute_unlocked failing texts input "1" fresh).0
      []
      (execute_unlocked failing texts input "1" fresh).1.calls
execute_unlocked-IsConserved_example = execute_unlocked-IsConserved failing texts input "1" fresh

abbrev done : CreditTransferRecord
done = record {
  transfer_id = "CT-1";
  request_id = "request-1";
  source_clientid = 1;
  destination_clientid = 2;
  amount = pos 1000;
  currency = "EUR";
  reason = "refund";
  state = completed;
  approval = input.approval;
  tax_enabled = false;
  reverses_transfer_id = none;
  reversed_by_transfer_id = none;
  whmcs_native_occurred_at = none;
  whmcs_native_credit_date = none;
  source_credit_id = none;
  destination_credit_id = none;
  source_activity_id = none;
  destination_activity_id = none;
  source_note_id = none;
  destination_note_id = none;
  compensation_credit_id = none;
  balances = record {
    source_before = pos 5000;
    destination_before = pos 0;
    source_after = none;
    destination_after = none;
    conserved = none;
  };
  invoice_counts = record {
    source_before = finite (pos 3);
    destination_before = finite (pos 3);
    source_after = none;
    destination_after = none;
    unchanged = none;
  };
  failure = none;
}

abbrev after_done : Machine ℕ
after_done = record {
  whmcs = 2;
  store = record {
    records = ("CT-1", done) ∷ [];
    by_request = ("request-1", "CT-1") ∷ [];
    journal = none;
  };
  calls = [];
}

execute_unlocked-replayed_example :
    ((execute_unlocked failing texts input "2" after_done).1 ≡ after_done)
    × ((r : CreditTransferRecord)
        → (execute_unlocked failing texts input "2" after_done).0 ≡ ok r
        → (r ≡ done) × (done.state ≡ completed) × IsSame texts input done)
    × (done.state ≡ completed
        → IsSame texts input done
        → (execute_unlocked failing texts input "2" after_done).0 ≡ ok done)
execute_unlocked-replayed_example =
    execute_unlocked-replayed failing texts input "2" after_done done
      (unfold find JsMap.get in refl)
