-- ===== src/Write/CreditTransfer/Prepared.antt =====
-- src/write/creditTransfer.ts, `executeUnlocked`: the preparation makes no credit call, and stores
-- the record.
use whmcs_mcp_server.Prelude.{
  ℤ, subst, String, ◌≡◌, refl, ◌∙◌, inl, inr, Option, none, some, List, arith, eq_refl, str_eq,
  Bool-cases,
}
use whmcs_mcp_server.Prelude.JsMap
use whmcs_mcp_server.Prelude.JsMap.{get-set}
use whmcs_mcp_server.Write.CreditTransfer.Types.{
  CreditTransferRecord, CreditTransferInput, put, enter,
}
use whmcs_mcp_server.Write.CreditTransfer.Program.{
  Api, Js, M, Machine, CreditCall, Outcome, ok, threw, ◌>>=◌, pure, put_record, continue,
  tax_enabled,
}
use whmcs_mcp_server.Write.CreditTransfer.Compensation.{Setting}
use whmcs_mcp_server.Write.CreditTransfer.Execute.{
  prepare, resolve_reversal, reverse_of, check_clients,
}
use whmcs_mcp_server.Write.CreditTransfer.Quiet.{
  Holds, Quiet, calls-put_record, Quiet-bind, Quiet-gets, Quiet-pure, quiet_rules,
}

module _ {W : Type 0} where
  put_record-claims :
      (r : CreditTransferRecord) (st : Machine W)
      → (put_record r st).0 ≡ ok tt
      → JsMap.get r.request_id (put_record r st).1.store.by_request ≡ some r.transfer_id
  unfolding put_record put enter
  put_record-claims r st h = ground (
    arith,
    get-set r.request_id r.request_id r.transfer_id st.store.by_request,
    eq_refl r.request_id,
  )

-- `Q` holds of what a program returns, and of the machine then, when `P` held before.
pub record Ensures {W A : Type 0} (P : Machine W → Type 0) (Q : A → Machine W → Type 0) (m : M W A)
    : Type 0 where
  pub at : (st : Machine W) (a : A) → P st → (m st).0 ≡ ok a → Q a (m st).1

module _ {W A B : Type 0} {P : Machine W → Type 0} {Q : B → Machine W → Type 0} where
  Ensures-bind :
      (m : M W A) (k : A → M W B)
      → Quiet P m
      → ((a : A) → Ensures P Q (k a))
      → Ensures P Q (m >>= k)
  unfolding ◌>>=◌
  Ensures-bind m k q f = record { at = λ st b p h. let (o, st') = m st in go o st' (q.at st p) b h }
    where
      go :
          (o : Outcome A) (st' : Machine W)
          → P st'
          → (b : B) → (continue o k st').0 ≡ ok b
          → Q b (continue o k st').1
      go (ok a) st' p b h = (f a).at st' b p h
      go (threw e) st' p b h = cc

abbrev pub HasClaim :
    {W : Type 0} → List CreditCall → Setting × CreditTransferRecord → Machine W → Type 0
HasClaim calls ready st = Holds calls ready.1.request_id (some ready.1.transfer_id) st

module _ {W : Type 0} {calls : List CreditCall} {request_id : String} {claim : Option String}
    (api : Api W) (js : Js) where
  Quiet-resolve_reversal :
      (input : CreditTransferInput) (o : Option String)
      → Quiet {W = W} (Holds calls request_id claim) (resolve_reversal js input o)
  unfolding resolve_reversal reverse_of
  Quiet-resolve_reversal input none = Quiet-pure input
  Quiet-resolve_reversal input (some id) = elim (Bool-cases (str_eq id "")) [
    | inl blank ↦ rw blank (Quiet-pure input)
    | inr given ↦ rw given (Quiet-bind _ _ (Quiet-gets _) Quiet-reverse_of)
  ]
    where
      Quiet-reverse_of :
          (o : Option CreditTransferRecord)
          → Quiet {W = W} (Holds calls request_id claim) (reverse_of js input o)
      Quiet-reverse_of none = search quiet_rules
      Quiet-reverse_of (some r) = search quiet_rules

  Quiet-check_clients :
      (input : CreditTransferInput) (amount : ℤ)
      → Quiet {W = W} (Holds calls request_id claim) (check_clients api js input amount)
  unfolding check_clients
  Quiet-check_clients input amount = search quiet_rules depth 60

  Quiet-tax_enabled : Quiet {W = W} (Holds calls request_id claim) (tax_enabled api js)
  unfolding tax_enabled
  Quiet-tax_enabled = search quiet_rules

  pub Quiet-prepare :
      (input : CreditTransferInput) (uuid : String)
      → Quiet {W = W} (Holds calls request_id claim) (prepare api js input uuid)
  unfolding prepare
  Quiet-prepare input uuid =
      search (quiet_rules, Quiet-resolve_reversal, Quiet-check_clients, Quiet-tax_enabled) depth 60

ok-same : {A : Type 0} (a b : A) → ok a ≡ ok b → a ≡ b
ok-same a b h = cc

module _ {W : Type 0} {calls : List CreditCall} where
  Ensures-last :
      (set : Setting) (r : CreditTransferRecord)
      → Ensures {W = W} (Holds calls "" none) (HasClaim calls) (put_record r >>= λ _. pure (set, r))
  unfolding ◌>>=◌ pure
  Ensures-last set r = record {
    at = λ st b p h. let st' = (put_record r st).1 in go st (put_record r st).0 p.made refl b h;
  }
    where
      go :
          (st : Machine W) (o : Outcome (Unit {0}))
          → st.calls ≡ calls
          → (put_record r st).0 ≡ o
          → (b : Setting × CreditTransferRecord)
          → (continue {B = Setting × CreditTransferRecord} o
              (λ _. pure (set, r))
              (put_record r st).1).0
            ≡ ok b
          → HasClaim calls b
              (continue {B = Setting × CreditTransferRecord} o
                (λ _. pure (set, r))
                (put_record r st).1).1
      go st (ok a) p e b h =
          let there : HasClaim calls (set, r) (put_record r st).1 = record {
            made = calls-put_record r st ∙ p;
            claimed = put_record-claims r st e;
          } in
          subst (λ x. HasClaim calls x (put_record r st).1) (ok-same (set, r) b h) there
      go st (threw e) p q b h = cc

  pub prepare-HasClaim :
      (api : Api W) (js : Js) (input : CreditTransferInput) (uuid : String)
      → Ensures (Holds calls "" none) (HasClaim calls) (prepare api js input uuid)
  unfolding prepare
  prepare-HasClaim api js input uuid =
      search
        (
          quiet_rules, Quiet-resolve_reversal, Quiet-check_clients, Quiet-tax_enabled, Ensures-bind,
          Ensures-last,
        )
        depth 60
