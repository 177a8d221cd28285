-- ===== src/Write/CreditTransfer/Legs/Run.antt =====
-- src/write/creditTransfer.ts: the two legs of a transfer, whatever WHMCS answers.
use whmcs_mcp_server.Prelude.{
  ◌≡◌, ◌∙◌, inl, inr, Bool, true, false, some, List, [], ◌∷◌, ◌++◌, Bool-cases,
}
use mathlib.Core.List.{append_assoc}
use whmcs_mcp_server.Write.CreditTransfer.Types.{CreditTransferRecord, source_debited}
use whmcs_mcp_server.Write.CreditTransfer.Program.{
  Api, Js, Machine, CreditCall, add, remove, Outcome, ◌>>=◌, put_record, add_credit, whmcs_error,
}
use whmcs_mcp_server.Write.CreditTransfer.Texts.{source_description, destination_description}
use whmcs_mcp_server.Write.CreditTransfer.Compensation.{Setting, compensate}
use whmcs_mcp_server.Write.CreditTransfer.Execute.{after_destination_leg, destination_leg, run_legs}
use whmcs_mcp_server.Write.CreditTransfer.Quiet.{Holds}
use whmcs_mcp_server.Write.CreditTransfer.Stages.{Quiet-settle}
use whmcs_mcp_server.Write.CreditTransfer.Legs.{
  Ending, debit_call, credit_call, repay_call, Legs, not_debited, posted, repaid, stranded, returns,
  add_credit-result, Holds-add_credit, Holds-put_record, bind-ok, bind-threw,
}
use whmcs_mcp_server.Write.CreditTransfer.Legs.Settled.{settle-IsSettled}
use whmcs_mcp_server.Write.CreditTransfer.Legs.Ending.{compensate-Compensated}

module _ {W : Type 0} (api : Api W) (js : Js) (set : Setting) where
  -- The destination leg, once the source is debited.
  record DestinationRun (calls : List CreditCall) (r : CreditTransferRecord) (st : Machine W)
      : Type 0 where
    made : List CreditCall
    appended : (destination_leg api js set r st).1.calls ≡ calls ++ made
    legs : Legs set (destination_leg api js set r st).0 (debit_call set true ∷ made)

  Legs-Ending :
      (b : Bool) (outcome : Outcome CreditTransferRecord)
      → Ending b outcome
      → Legs set outcome (debit_call set true ∷ credit_call set false ∷ repay_call set b ∷ [])
  Legs-Ending true outcome e = repaid e
  Legs-Ending false outcome e = stranded e

  destination_leg-run :
      {calls : List CreditCall} (r : CreditTransferRecord) (st : Machine W)
      → Holds calls r.request_id (some r.transfer_id) st
      → DestinationRun calls r st
  unfolding destination_leg ◌>>=◌ after_destination_leg
  destination_leg-run {calls} r st h =
      let text = destination_description js set.subject in
      let id = set.destination.clientid in
      let result = add_credit-result api id text set.amount add st in
      let h' = Holds-add_credit api id text set.amount add st h in
      let st' = (add_credit api id text set.amount add st).1 in
      elim (Bool-cases (returns api id text set.amount add st)) [
        | inl fine ↦ record {
          made = credit_call set true ∷ [];
          appended = rw (result, fine) ((Quiet-settle api js set r).at st' (rw fine at h')).made;
          legs = rw (result, fine) (posted (settle-IsSettled api js set r st'));
        }
        | inr bad ↦
            let c = compensate-Compensated api js set r st' (rw bad at h') in
            record {
              made = credit_call set false ∷ repay_call set c.paid ∷ [];
              appended =
                  rw (result, bad)
                    (c.made
                      ∙ append_assoc calls (credit_call set false ∷ [])
                          (repay_call set c.paid ∷ []));
              legs = rw (result, bad) (Legs-Ending c.paid (compensate api js set r st').0 c.ending);
            }
      ]

  -- The credit calls of the legs, after those made before.
  pub record LegsRun (calls : List CreditCall) (st : Machine W) (r : CreditTransferRecord)
      : Type 0 where
    pub made : List CreditCall
    pub appended : (run_legs api js (set, r) st).1.calls ≡ calls ++ made
    pub legs : Legs set (run_legs api js (set, r) st).0 made

  pub run_legs-LegsRun :
      {calls : List CreditCall} (r : CreditTransferRecord) (st : Machine W)
      → Holds calls r.request_id (some r.transfer_id) st
      → LegsRun calls st r
  unfolding run_legs
  run_legs-LegsRun {calls} r st h =
      let text = source_description js set.subject in
      let id = set.source.clientid in
      let result = add_credit-result api id text set.amount remove st in
      let h' = Holds-add_credit api id text set.amount remove st h in
      let m = add_credit api id text set.amount remove in
      let st' = (m st).1 in
      let debited = record r { state = source_debited } in
      let rest = put_record debited >>= λ _. destination_leg api js set debited in
      elim (Bool-cases (returns api id text set.amount remove st)) [
        | inl fine ↦
            let (stored, h'') = Holds-put_record debited st' (rw fine at h') in
            let d = destination_leg-run debited (put_record debited st').1 h'' in
            let e =
              bind-ok m (λ _. rest) st tt (rw (result, fine))
              ∙ bind-ok (put_record debited) (λ _. destination_leg api js set debited) st' tt
                  stored in
            record {
              made = debit_call set true ∷ d.made;
              appended = rw e (d.appended ∙ append_assoc calls (debit_call set true ∷ []) d.made);
              legs = rw e d.legs;
            }
        | inr bad ↦
            let e = bind-threw m (λ _. rest) st whmcs_error (rw (result, bad)) in
            record {
              made = debit_call set false ∷ [];
              appended = rw e (rw bad at h').made;
              legs = rw e (not_debited tt);
            }
      ]
