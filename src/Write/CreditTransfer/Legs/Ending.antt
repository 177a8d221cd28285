-- ===== src/Write/CreditTransfer/Legs/Ending.antt =====
-- How a transfer whose destination leg threw ends.
use whmcs_mcp_server.Prelude.{
  subst, String, ◌≡◌, refl, ◌∙◌, inl, inr, Bool, true, false, Option, some, List, [], ◌∷◌, ◌++◌,
  Bool-cases,
}
use whmcs_mcp_server.Write.CreditTransfer.Types.{
  CreditTransferRecord, compensated, audit_repair_required, Failure,
}
use whmcs_mcp_server.Write.CreditTransfer.Program.{
  Api, Js, M, Machine, CreditCall, add, Outcome, ok, threw, ◌>>=◌, pure, attempt, put_record,
  add_credit, whmcs_error, client_details, ClientSnapshot,
}
use whmcs_mcp_server.Write.CreditTransfer.Texts.{compensation_description}
use whmcs_mcp_server.Write.CreditTransfer.Compensation.{
  Setting, compensation_artifacts, keep_or_flag, compensate_source, after_compensation, compensate,
  eq_ℤ,
}
use whmcs_mcp_server.Write.CreditTransfer.Quiet.{Holds, Quiet-client_details}
use whmcs_mcp_server.Write.CreditTransfer.Stages.{Quiet-compensation_artifacts}
use whmcs_mcp_server.Write.CreditTransfer.Legs.{
  Ending, repay_call, IsFlagged, IsFlaggedOrBack, returns, add_credit-result, Holds-add_credit,
  Holds-put_record, bind-ok, bind-threw, put_and_return,
}
use whmcs_mcp_server.Write.CreditTransfer.Yields.{Yields, yields_rules}

module _ {W : Type 0} (api : Api W) (js : Js) (set : Setting) where
  artifacts-state :
      (r : CreditTransferRecord)
      → Yields (λ done. done.state ≡ r.state) (compensation_artifacts api js set r)
  unfolding compensation_artifacts
  artifacts-state r = search yields_rules depth 60

  -- How a compensated transfer ends: the record that is returned says so, or asks for repair.
  keep_or_flag-IsFlaggedOrBack :
      {calls : List CreditCall} (r : CreditTransferRecord) (o : Outcome CreditTransferRecord)
      (st : Machine W)
      → r.state ≡ compensated
      → ((done : CreditTransferRecord) → o ≡ ok done → done.state ≡ r.state)
      → Holds calls r.request_id (some r.transfer_id) st
      → IsFlaggedOrBack (keep_or_flag api js set r o st).0
        × Holds calls r.request_id (some r.transfer_id) (keep_or_flag api js set r o st).1
  unfolding keep_or_flag
  keep_or_flag-IsFlaggedOrBack r (ok done) st c y h = unfold pure in (inl (y done refl ∙ c), h)
  keep_or_flag-IsFlaggedOrBack r (threw e) st c y h =
      let flagged = record r {
        state = audit_repair_required;
        failure = some Failure.compensation_audit;
      } in
      let (returned, h') = put_and_return flagged st h in (rw returned (inr refl), h')

  abbrev IfThrown : Outcome ClientSnapshot → Outcome CreditTransferRecord → Type 0
  IfThrown (ok s) result = Unit
  IfThrown (threw e) result = IsFlagged result

  after_compensation-result :
      {calls : List CreditCall} (r : CreditTransferRecord) (o : Outcome ClientSnapshot)
      (st : Machine W)
      → Holds calls r.request_id (some r.transfer_id) st
      → IsFlaggedOrBack (after_compensation api js set r o st).0
        × IfThrown o (after_compensation api js set r o st).0
        × Holds calls r.request_id (some r.transfer_id) (after_compensation api js set r o st).1
  unfolding after_compensation
  after_compensation-result r (threw e) st h =
      let flagged = record r {
        state = audit_repair_required;
        failure = some Failure.both_legs_failed;
      } in
      let (returned, h') = put_and_return flagged st h in
      (rw returned (inr refl), rw returned refl, h')
  after_compensation-result r (ok snapshot) st h =
      let back = record r {
        state = compensated;
        balances = record (r.balances) {
          source_after = some snapshot.credit;
          destination_after = some set.destination.credit;
          conserved = some (eq_ℤ snapshot.credit set.source.credit);
        };
        failure = some Failure.leg_failed_compensated;
      } in
      let (fine, h') = Holds-put_record back st h in
      let st' = (put_record back st).1 in
      let o = (compensation_artifacts api js set back st').0 in
      let (kept, h'') =
        keep_or_flag-IsFlaggedOrBack back o (compensation_artifacts api js set back st').1 refl
          (λ done e. (artifacts-state back).at st' done e)
          ((Quiet-compensation_artifacts api js set back).at st' h') in
      rw
        (bind-ok (put_record back)
          (λ _. attempt (compensation_artifacts api js set back) >>= keep_or_flag api js set back)
          st tt fine)
        (unfold ◌>>=◌ in (kept, tt, h''))

  -- The repayment of the source: whether the call returned, and what the program then knows.
  record Paid (calls : List CreditCall) (request_id : String) (claim : Option String)
      (st : Machine W) : Type 0 where
    paid : Bool
    holds :
        Holds
          (calls ++ repay_call set paid ∷ [])
          request_id
          claim
          (compensate_source api js set st).1
    unpaid : paid ≡ false → (compensate_source api js set st).0 ≡ threw whmcs_error

  compensate_source-Paid :
      {calls : List CreditCall} {request_id : String} {claim : Option String} (st : Machine W)
      → Holds calls request_id claim st
      → Paid calls request_id claim st
  unfolding compensate_source
  compensate_source-Paid st h =
      let text = compensation_description js set.subject in
      let id = set.source.clientid in
      let m = add_credit api id text set.amount add in
      let k : Unit {0} → M W ClientSnapshot = λ _. client_details api id in
      let result = add_credit-result api id text set.amount add st in
      let h' = Holds-add_credit api id text set.amount add st h in
      elim (Bool-cases (returns api id text set.amount add st)) [
        | inl fine ↦ record {
          paid = true;
          holds =
              rw (bind-ok m k st tt (rw (result, fine)))
                ((Quiet-client_details api id).at (m st).1 (rw fine at h'));
          unpaid = λ e. cc;
        }
        | inr bad ↦ record {
          paid = false;
          holds = rw (bind-threw m k st whmcs_error (rw (result, bad))) (rw bad at h');
          unpaid = λ e. rw (bind-threw m k st whmcs_error (rw (result, bad)));
        }
      ]

  Ending-intro :
      (b : Bool) (o : Outcome ClientSnapshot) (outcome : Outcome CreditTransferRecord)
      → (b ≡ false → o ≡ threw whmcs_error)
      → IsFlaggedOrBack outcome
      → IfThrown o outcome
      → Ending b outcome
  Ending-intro true o outcome u back if_threw = back
  Ending-intro false o outcome u back if_threw = subst (λ x. IfThrown x outcome) (u refl) if_threw

  -- How the handler of the destination leg ends.
  pub record Compensated (r : CreditTransferRecord) (calls : List CreditCall) (st : Machine W)
      : Type 0 where
    pub paid : Bool
    pub made : (compensate api js set r st).1.calls ≡ calls ++ repay_call set paid ∷ []
    pub ending : Ending paid (compensate api js set r st).0

  pub compensate-Compensated :
      {calls : List CreditCall} (r : CreditTransferRecord) (st : Machine W)
      → Holds calls r.request_id (some r.transfer_id) st
      → Compensated r calls st
  unfolding compensate ◌>>=◌
  compensate-Compensated r st h =
      let p = compensate_source-Paid st h in
      let o = (compensate_source api js set st).0 in
      let st' = (compensate_source api js set st).1 in
      let (back, if_threw, h') = after_compensation-result r o st' p.holds in
      record {
        paid = p.paid;
        made = h'.made;
        ending = Ending-intro p.paid o _ p.unpaid back if_threw;
      }
