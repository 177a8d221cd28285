-- ===== src/Write/CreditTransfer/Stages.antt =====
-- The stages that come after the two legs.
use whmcs_mcp_server.Prelude.{ℕ, String, Bool, true, false, Option, none, some, List}
use whmcs_mcp_server.Write.CreditTransfer.Types.{CreditTransferRecord, CreditTransferState}
use whmcs_mcp_server.Write.CreditTransfer.Program.{Api, Js, CreditCall, Outcome, ok, threw}
use whmcs_mcp_server.Write.CreditTransfer.Compensation.{Setting, compensation_artifacts}
use whmcs_mcp_server.Write.CreditTransfer.Settlement.{
  artifacts, mark_reversal, mark_original, finish, reconcile, settle,
}
use whmcs_mcp_server.Write.CreditTransfer.Quiet.{
  Holds, Quiet, Quiet-pure, quiet_rules, Quiet-bind, Quiet-put_record, Quiet-gets,
}

module _ {W : Type 0} {calls : List CreditCall} {request_id : String} {claim : Option String}
    (api : Api W) (js : Js) (set : Setting) where
  pub Quiet-compensation_artifacts :
      (r : CreditTransferRecord)
      → Quiet {W = W} (Holds calls request_id claim) (compensation_artifacts api js set r)
  unfolding compensation_artifacts
  Quiet-compensation_artifacts r = search quiet_rules depth 60

  Quiet-artifacts :
      (r : CreditTransferRecord) (a b : ℕ)
      → Quiet {W = W} (Holds calls request_id claim) (artifacts api js set r a b)
  unfolding artifacts
  Quiet-artifacts r a b = search quiet_rules depth 60

  Quiet-mark_reversal :
      (s : CreditTransferState) (done : CreditTransferRecord) (id : Option String)
      → Quiet {W = W} (Holds calls request_id claim) (mark_reversal api js set s done id)
  Quiet-mark_reversal CreditTransferState.completed done (some id) =
      Quiet-bind _ _ (Quiet-gets _)
        λ original. Quiet-bind _ _ (marked original) λ _. Quiet-pure done
    where
      marked :
          (o : Option CreditTransferRecord)
          → Quiet {W = W} (Holds calls request_id claim) (mark_original api js set done o)
      marked none = Quiet-pure tt
      marked (some original) = Quiet-put_record _
  Quiet-mark_reversal _ done _ = Quiet-pure done

  Quiet-finish :
      (r : CreditTransferRecord) (o : Outcome CreditTransferRecord)
      → Quiet {W = W} (Holds calls request_id claim) (finish api js set r o)
  unfolding finish
  Quiet-finish r (threw e) = search quiet_rules
  Quiet-finish r (ok done) = Quiet-mark_reversal done.state done set.subject.reverses

  Quiet-reconcile :
      (b : Bool) (r : CreditTransferRecord) (x y : ℕ)
      → Quiet {W = W} (Holds calls request_id claim) (reconcile api js set b r x y)
  unfolding reconcile
  Quiet-reconcile false r x y = search quiet_rules
  Quiet-reconcile true r x y = search (quiet_rules, Quiet-artifacts, Quiet-finish)

  pub Quiet-settle :
      (r : CreditTransferRecord)
      → Quiet {W = W} (Holds calls request_id claim) (settle api js set r)
  unfolding settle
  Quiet-settle r = search (quiet_rules, Quiet-reconcile) depth 60
