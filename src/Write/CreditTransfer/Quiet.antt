-- ===== src/Write/CreditTransfer/Quiet.antt =====
-- Which programs make no credit call and leave a transfer's claim on its request id alone.
use whmcs_mcp_server.Prelude.{
  ℕ, suc, ℤ, String, ◌≡◌, ◌∙◌, Bool, true, false, Option, none, some, List, arith, eq_iff, str_eq,
  Bool-cases, inl, inr,
}
use whmcs_mcp_server.Prelude.JsNumber.{JsNumber}
use whmcs_mcp_server.Prelude.JsMap
use whmcs_mcp_server.Prelude.JsMap.{get-set}
use whmcs_mcp_server.Write.CreditTransfer.Types.{CreditTransferRecord, CreditTransferStore, put}
use whmcs_mcp_server.Write.CreditTransfer.Program.{
  Api, M, Machine, CreditCall, Outcome, ok, threw, Thrown, Row, ◌>>=◌, pure, throw, gets, call,
  attempt, continue, require, put_record, money, native_id, client_details, invoice_count,
  credit_by_description, activity_by_description, log_activity, add_note, found_or,
}
use whmcs_mcp_server.Write.CreditTransfer.Compensation.{dated}

-- A transfer's claim on a request id, where there is one.
abbrev pub IsClaimed : Option String → Option String → Type 0
IsClaimed none owner = Unit
IsClaimed (some transfer_id) owner = owner ≡ some transfer_id

-- The credit calls so far are `calls`, and the request id is claimed as given.
pub record Holds {W : Type 0} (calls : List CreditCall) (request_id : String)
    (claim : Option String) (st : Machine W) : Type 0 where
  pub made : st.calls ≡ calls
  pub claimed : IsClaimed claim (JsMap.get request_id st.store.by_request)

pub record Quiet {W A : Type 0} (P : Machine W → Type 0) (m : M W A) : Type 0 where
  pub at : (st : Machine W) → P st → P (m st).1

module _ {W A : Type 0} {P : Machine W → Type 0} where
  pub Quiet-pure : (a : A) → Quiet P (pure a)
  unfolding pure
  Quiet-pure a = record { at = λ st h. h }

  pub Quiet-throw : (e : Thrown) → Quiet P (throw {A = A} e)
  unfolding throw
  Quiet-throw e = record { at = λ st h. h }

  pub Quiet-gets : (f : CreditTransferStore → A) → Quiet P (gets f)
  unfolding gets
  Quiet-gets f = record { at = λ st h. h }

  pub Quiet-attempt : (m : M W A) → Quiet P m → Quiet P (attempt m)
  unfolding attempt
  Quiet-attempt m q = record { at = λ st h. q.at st h }

module _ {W A B : Type 0} {P : Machine W → Type 0} where
  Quiet-continue :
      (r : Outcome A) (k : A → M W B) → ((a : A) → Quiet P (k a)) → Quiet P (continue r k)
  Quiet-continue (ok a) k q = q a
  Quiet-continue (threw e) k q = record { at = λ st h. h }

  pub Quiet-bind :
      (m : M W A) (k : A → M W B) → Quiet P m → ((a : A) → Quiet P (k a)) → Quiet P (m >>= k)
  unfolding ◌>>=◌
  Quiet-bind m k qm qk = record {
    at = λ st h. let (r, st') = m st in (Quiet-continue r k qk).at st' (qm.at st h);
  }

module _ {W : Type 0} where
  put_record-IsClaimed :
      (request_id : String) (r : CreditTransferRecord) (claim : Option String) (st : Machine W)
      → IsClaimed claim (JsMap.get request_id st.store.by_request)
      → IsClaimed claim (JsMap.get request_id (put_record r st).1.store.by_request)
  unfolding put_record put
  put_record-IsClaimed request_id r none st h = tt
  put_record-IsClaimed request_id r (some transfer_id) st h = ground (
    arith,
    get-set r.request_id request_id r.transfer_id st.store.by_request,
    eq_iff r.request_id request_id,
    eq_iff transfer_id r.transfer_id,
  )

  pub calls-put_record :
      (r : CreditTransferRecord) (st : Machine W) → (put_record r st).1.calls ≡ st.calls
  unfolding put_record
  calls-put_record r st = ground arith

module _ {W : Type 0} {calls : List CreditCall} {request_id : String} {claim : Option String} where
  pub Quiet-call :
      {A : Type 0} (f : W → Option A × W) → Quiet {W = W} (Holds calls request_id claim) (call f)
  unfolding call
  Quiet-call f = record { at = λ st h. record { made = h.made; claimed = h.claimed } }

  pub Quiet-require :
      (b : Bool) (e : Thrown) → Quiet {W = W} (Holds calls request_id claim) (require b e)
  unfolding require
  Quiet-require true e = record { at = λ st h. h }
  Quiet-require false e = record { at = λ st h. h }

  pub Quiet-money : (n : JsNumber) → Quiet {W = W} (Holds calls request_id claim) (money n)
  unfolding money
  Quiet-money (JsNumber.finite cents) = Quiet-pure cents
  Quiet-money _ = Quiet-throw _

  pub Quiet-native_id : (n : JsNumber) → Quiet {W = W} (Holds calls request_id claim) (native_id n)
  unfolding native_id
  Quiet-native_id (JsNumber.finite (ℤ.pos (suc n))) = Quiet-pure (suc n)
  Quiet-native_id _ = Quiet-throw _

  pub Quiet-found_or :
      (e : Thrown) (o : Option Row) → Quiet {W = W} (Holds calls request_id claim) (found_or e o)
  unfolding found_or
  Quiet-found_or e none = Quiet-throw e
  Quiet-found_or e (some r) = Quiet-pure r

  pub Quiet-dated : (o : Option Row) → Quiet {W = W} (Holds calls request_id claim) (dated o)
  unfolding dated
  Quiet-dated none = Quiet-throw _
  Quiet-dated (some r) = elim (Bool-cases (str_eq r.date "")) [
    | inl blank ↦ rw blank (Quiet-throw _)
    | inr dated_row ↦ rw dated_row (Quiet-pure r)
  ]

  -- A put keeps every claim: a record that would take the request id over is refused.
  pub Quiet-put_record :
      (r : CreditTransferRecord) → Quiet {W = W} (Holds calls request_id claim) (put_record r)
  Quiet-put_record r = record {
    at = λ st h. record {
      made = calls-put_record r st ∙ h.made;
      claimed = put_record-IsClaimed request_id r claim st h.claimed;
    };
  }

pub ruleset basic_rules = (
  Quiet-pure, Quiet-throw, Quiet-call, Quiet-require, Quiet-money, Quiet-native_id, Quiet-found_or,
  Quiet-dated, Quiet-bind, Quiet-gets, Quiet-attempt, Quiet-put_record,
)

module _ {W : Type 0} {calls : List CreditCall} {request_id : String} {claim : Option String}
    (api : Api W) where
  pub Quiet-client_details :
      (clientid : ℕ) → Quiet {W = W} (Holds calls request_id claim) (client_details api clientid)
  unfolding client_details
  Quiet-client_details clientid = search basic_rules

  pub Quiet-invoice_count :
      (clientid : ℕ) → Quiet {W = W} (Holds calls request_id claim) (invoice_count api clientid)
  unfolding invoice_count
  Quiet-invoice_count clientid = search basic_rules

  pub Quiet-credit_by_description :
      (clientid : ℕ) (d : String)
      → Quiet {W = W} (Holds calls request_id claim) (credit_by_description api clientid d)
  unfolding credit_by_description
  Quiet-credit_by_description clientid d = search basic_rules

  pub Quiet-activity_by_description :
      (d : String) → Quiet {W = W} (Holds calls request_id claim) (activity_by_description api d)
  unfolding activity_by_description
  Quiet-activity_by_description d = search basic_rules

  pub Quiet-log_activity :
      (clientid : ℕ) (d : String)
      → Quiet {W = W} (Holds calls request_id claim) (log_activity api clientid d)
  unfolding log_activity
  Quiet-log_activity clientid d = search basic_rules

  pub Quiet-add_note :
      (clientid : ℕ) (d : String)
      → Quiet {W = W} (Holds calls request_id claim) (add_note api clientid d)
  unfolding add_note
  Quiet-add_note clientid d = search basic_rules

pub ruleset quiet_rules = (
  basic_rules, Quiet-client_details, Quiet-invoice_count, Quiet-credit_by_description,
  Quiet-activity_by_description, Quiet-log_activity, Quiet-add_note,
)
