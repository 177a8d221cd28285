-- ===== src/Write/CreditTransfer/Legs.antt =====
-- Which credit calls a transfer can make, and what it may report with each.
pub mod Ending
pub mod Settled
pub mod Run
use whmcs_mcp_server.Prelude.{
  ℕ, ℤ, subst, String, ◌≡◌, refl, sym, ◌∙◌, ap, ◌⊎◌, inl, inr, Bool, true, false, Option, none,
  some, List, [], ◌∷◌, ◌++◌, arith, eq_iff, eq_refl, str_eq, if◌then◌else◌, Bool-cases,
}
use mathlib.Core.List.{append_assoc}
use whmcs_mcp_server.Prelude.JsMap
use whmcs_mcp_server.Prelude.JsMap.{get-set}
use whmcs_mcp_server.Write.CreditTransfer.Types.{
  CreditTransferRecord, CreditTransferStore, CreditTransferState, compensated, completed,
  audit_repair_required, put, enter, source_debited, Failure,
}
use whmcs_mcp_server.Write.CreditTransfer.Program.{
  Api, Js, M, Machine, CreditCall, CreditType, add, remove, Outcome, ok, threw, Thrown, ◌>>=◌, pure,
  throw, gets, attempt, put_record, add_credit, whmcs_error, client_details, ClientSnapshot,
  continue,
}
use whmcs_mcp_server.Write.CreditTransfer.Texts.{
  source_description, destination_description, compensation_description,
}
use whmcs_mcp_server.Write.CreditTransfer.Compensation.{
  Setting, compensation_artifacts, keep_or_flag, compensate_source, after_compensation, compensate,
  eq_ℤ,
}
use whmcs_mcp_server.Write.CreditTransfer.Settlement.{settle}
use whmcs_mcp_server.Write.CreditTransfer.Execute.{after_destination_leg, destination_leg, run_legs}
use whmcs_mcp_server.Write.CreditTransfer.Quiet.{
  Holds, Quiet, Quiet-put_record, Quiet-client_details,
}
use whmcs_mcp_server.Write.CreditTransfer.Stages.{Quiet-compensation_artifacts, Quiet-settle}

-- The three credit calls that a transfer can make, and whether each returned.
module _ (set : Setting) where
  abbrev pub debit_call : Bool → CreditCall
  debit_call b = record {
    clientid = set.source.clientid;
    amount = set.amount;
    type = remove;
    returned = b;
  }

  abbrev pub credit_call : Bool → CreditCall
  credit_call b = record {
    clientid = set.destination.clientid;
    amount = set.amount;
    type = add;
    returned = b;
  }

  abbrev pub repay_call : Bool → CreditCall
  repay_call b = record {
    clientid = set.source.clientid;
    amount = set.amount;
    type = add;
    returned = b;
  }

abbrev pub IsFlagged : Outcome CreditTransferRecord → Type 0
IsFlagged (threw e) = ⊥
IsFlagged (ok r) = r.state ≡ audit_repair_required

abbrev pub IsFlaggedOrBack : Outcome CreditTransferRecord → Type 0
IsFlaggedOrBack (threw e) = ⊥
IsFlaggedOrBack (ok r) = (r.state ≡ compensated) ⊎ (r.state ≡ audit_repair_required)

abbrev pub IsThrown : Outcome CreditTransferRecord → Type 0
IsThrown (threw e) = Unit
IsThrown (ok r) = ⊥

-- Both legs are posted: the transfer is completed, or left for repair, or the read-back threw.
abbrev pub IsSettled : Outcome CreditTransferRecord → Type 0
IsSettled (threw e) = Unit
IsSettled (ok r) = (r.state ≡ completed) ⊎ (r.state ≡ audit_repair_required)

-- What is reported when the source is repaid, and when it is not.
abbrev pub Ending : Bool → Outcome CreditTransferRecord → Type 0
Ending true outcome = IsFlaggedOrBack outcome
Ending false outcome = IsFlagged outcome

-- The calls that the legs make, with what is reported.
pub data Legs (set : Setting) (outcome : Outcome CreditTransferRecord)
    : List CreditCall → Type 0 where
  not_debited : IsThrown outcome → Legs set outcome (debit_call set false ∷ [])
  posted : IsSettled outcome → Legs set outcome (debit_call set true ∷ credit_call set true ∷ [])
  repaid :
      IsFlaggedOrBack outcome
      → Legs set outcome (debit_call set true ∷ credit_call set false ∷ repay_call set true ∷ [])
  stranded :
      IsFlagged outcome
      → Legs set outcome (debit_call set true ∷ credit_call set false ∷ repay_call set false ∷ [])

module _ {W : Type 0} (api : Api W) where
  module _ (clientid : ℕ) (description : String) (amount : ℤ) (type : CreditType)
      (st : Machine W) where
    -- Whether the API call returns.
    abbrev pub returns : Bool
    returns = (api.add_credit clientid description amount type st.whmcs).0

    abbrev pub added : Machine W
    added = (add_credit api clientid description amount type st).1

    pub add_credit-result :
        (add_credit api clientid description amount type st).0
        ≡ (if returns then ok tt else threw whmcs_error)
    unfolding add_credit
    add_credit-result = refl

    pub Holds-add_credit :
        {calls : List CreditCall} {request_id : String} {claim : Option String}
        → Holds calls request_id claim st
        → Holds
            (calls
              ++ record { clientid = clientid; amount = amount; type = type; returned = returns }
                ∷ [])
            request_id
            claim
            added
    unfolding add_credit
    Holds-add_credit h = record { made = rw h.made; claimed = h.claimed }

module _ {W : Type 0} where
  pub Holds-put_record :
      {calls : List CreditCall} (r : CreditTransferRecord) (st : Machine W)
      → Holds calls r.request_id (some r.transfer_id) st
      → ((put_record r st).0 ≡ ok tt)
        × Holds calls r.request_id (some r.transfer_id) (put_record r st).1
  Holds-put_record r st h = (
    unfold put_record put in ground (arith, h.claimed, eq_refl r.transfer_id),
    (Quiet-put_record r).at st h,
  )

  pub bind-ok :
      {A B : Type 0} (m : M W A) (k : A → M W B) (st : Machine W) (a : A)
      → (m st).0 ≡ ok a
      → (m >>= k) st ≡ k a (m st).1
  unfolding ◌>>=◌
  bind-ok m k st a e = rw e

  pub bind-threw :
      {A B : Type 0} (m : M W A) (k : A → M W B) (st : Machine W) (e : Thrown)
      → (m st).0 ≡ threw e
      → (m >>= k) st ≡ (threw e, (m st).1)
  unfolding ◌>>=◌
  bind-threw m k st e p = rw p

  -- A record is stored and returned.
  pub put_and_return :
      {calls : List CreditCall} (r : CreditTransferRecord) (st : Machine W)
      → Holds calls r.request_id (some r.transfer_id) st
      → (((put_record r >>= λ _. pure r) st).0 ≡ ok r)
        × Holds calls r.request_id (some r.transfer_id) ((put_record r >>= λ _. pure r) st).1
  put_and_return r st h =
      let (fine, h') = Holds-put_record r st h in
      rw (bind-ok (put_record r) (λ _. pure r) st tt fine) (unfold pure in (refl, h'))
