-- ===== src/Write/CreditTransfer/Program.antt =====
-- The calls to WHMCS that a transfer makes, and programs that make them, keep the store, and may
-- throw. The API is a parameter: what it answers and how its state changes is arbitrary. A call
-- that throws may have had its effect. The credit calls made are kept in order, with whether they
-- returned, for the theorems to speak of.
use whmcs_mcp_server.Prelude.{
  ℕ, ℤ, pos, String, Bool, Option, none, some, List, [], ◌∷◌, ◌++◌, str_eq, if◌then◌else◌, suc,
  includes,
}
use whmcs_mcp_server.Prelude.JsNumber.{JsNumber, finite}
use whmcs_mcp_server.Write.CreditTransfer.Types.{
  CreditTransferState, CreditTransferRecord, CreditTransferStore, put,
}

-- GetClientsDetails, its texts as `scalarText` reads them.
pub record ClientResponse : Type 0 where
  pub status : String
  pub currency_code : String
  pub currency : String
  pub credit : JsNumber

-- A row of GetCredits or of GetActivityLog. A date that is missing is "".
pub record Row : Type 0 where
  pub id : JsNumber
  pub description : String
  pub date : String

pub data CreditType : Type 0 where
  remove add : CreditType

pub record Api (W : Type 0) : Type 0 where
  pub get_clients_details : ℕ → W → Option ClientResponse × W
  pub get_invoices_total : ℕ → W → Option JsNumber × W
  pub get_tax_enabled : W → Option String × W
  pub get_credits : ℕ → W → Option (List Row) × W
  pub get_activity_log : String → W → Option (List Row) × W
  pub add_credit : ℕ → String → ℤ → CreditType → W → Bool × W
  pub log_activity : ℕ → String → W → Bool × W
  pub add_client_note : ℕ → String → W → Option JsNumber × W

pub record CreditCall : Type 0 where
  pub clientid : ℕ
  pub amount : ℤ
  pub type : CreditType
  pub returned : Bool

pub data Thrown : Type 0 where
  whmcs_error invalid_money no_native_id replayed_with_different_parameters : Thrown
  original_not_found already_reversed same_client amount_not_positive : Thrown
  not_active currency_mismatch insufficient_credit request_taken : Thrown
  credit_read_back_failed activity_read_back_failed : Thrown
  needs_reconciliation : CreditTransferState → Thrown

pub data Outcome {ℓ} (A : Type ℓ) : Type ℓ where
  ok : A → Outcome A
  threw : Thrown → Outcome A

abbrev pub outcome_of : {A : Type 0} → Option A → Outcome A
outcome_of none = threw whmcs_error
outcome_of (some a) = ok a

pub record Machine (W : Type 0) : Type 0 where
  pub whmcs : W
  pub store : CreditTransferStore
  pub calls : List CreditCall

abbrev pub M : Type 0 → Type 0 → Type 0
M W A = Machine W → Outcome A × Machine W

module _ {W A : Type 0} where
  unfoldable pub pure : A → M W A
  pure a st = (ok a, st)

  unfoldable pub throw : Thrown → M W A
  throw e st = (threw e, st)

  unfoldable pub gets : (CreditTransferStore → A) → M W A
  gets f st = (ok (f st.store), st)

  -- A call that makes no credit call.
  unfoldable pub call : (W → Option A × W) → M W A
  call f st = let (r, w) = f st.whmcs in (outcome_of r, record st { whmcs = w })

  -- `try { … } catch { … }`, as the outcome of the block.
  unfoldable pub attempt : M W A → M W (Outcome A)
  attempt m st = let (r, st') = m st in (ok r, st')

module _ {W A B : Type 0} where
  abbrev pub continue : Outcome A → (A → M W B) → M W B
  continue (ok a) k st = k a st
  continue (threw e) k st = (threw e, st)

  infixl 5 ◌>>=◌ ◌>>◌
  unfoldable pub ◌>>=◌ : M W A → (A → M W B) → M W B
  unfolding pure throw gets call attempt
  ◌>>=◌ m k st = let (r, st') = m st in continue r k st'

  abbrev pub ◌>>◌ : M W A → M W B → M W B
  m >> k = m >>= λ _. k

module _ {W : Type 0} where
  unfoldable pub require : Bool → Thrown → M W (Unit {0})
  unfolding pure throw
  require b e st = if b then pure tt st else throw e st

  abbrev put_outcome : Option CreditTransferStore → Machine W → Outcome (Unit {0}) × Machine W
  put_outcome none st = (threw request_taken, st)
  put_outcome (some s) st = (ok tt, record st { store = s })

  unfoldable pub put_record : CreditTransferRecord → M W (Unit {0})
  put_record r st = put_outcome (put r st.store) st

  -- AddCredit.
  unfoldable pub add_credit : Api W → ℕ → String → ℤ → CreditType → M W (Unit {0})
  add_credit api clientid description amount type st =
      let (returned, w) = api.add_credit clientid description amount type st.whmcs in
      (
        if returned then ok tt else threw whmcs_error,
        record st {
          whmcs = w;
          calls =
              st.calls
              ++ record { clientid = clientid; amount = amount; type = type; returned = returned }
                ∷ [];
        },
      )

-- `money`, then `cents`
unfoldable pub money : {W : Type 0} → JsNumber → M W ℤ
money (finite cents) = pure cents
money _ = throw invalid_money

-- `nativeId`
unfoldable pub native_id : {W : Type 0} → JsNumber → M W ℕ
native_id (finite (pos (suc n))) = pure (suc n)
native_id _ = throw no_native_id

pub record ClientSnapshot : Type 0 where
  pub clientid : ℕ
  pub status : String
  pub currency : String
  pub credit : ℤ

-- JavaScript's texts: `String(n)`, `toFixed(2)` of an amount, `value.trim().toLowerCase()`, and the
-- chain of text methods that `safeText` applies.
pub record Js : Type 0 where
  pub show : ℕ → String
  pub show_money : ℤ → String
  pub trim_lower : String → String
  pub safe_text : String → String

module _ {W : Type 0} (api : Api W) where
  unfoldable pub client_details : ℕ → M W ClientSnapshot
  client_details clientid = do
    r ← call (api.get_clients_details clientid)
    credit ← money r.credit
    pure (record {
      clientid = clientid;
      status = r.status;
      currency = if str_eq r.currency_code "" then r.currency else r.currency_code;
      credit = credit;
    })

  unfoldable pub invoice_count : ℕ → M W JsNumber
  invoice_count clientid = call (api.get_invoices_total clientid)

  unfoldable pub bool_setting : Js → String → Bool
  bool_setting js value = includes ("1" ∷ "on" ∷ "true" ∷ "yes" ∷ []) (js.trim_lower value)

  unfoldable pub tax_enabled : Js → M W Bool
  tax_enabled js = do value ← call api.get_tax_enabled; pure (bool_setting js value)

  -- `rows(…).find((entry) => entry.description === description)`
  abbrev pub row_named : String → List Row → Option Row
  row_named description [] = none
  row_named description (r ∷ rs) =
      if str_eq r.description description then some r else row_named description rs

  unfoldable pub credit_by_description : ℕ → String → M W (Option Row)
  credit_by_description clientid description = do
    rows ← call (api.get_credits clientid)
    pure (row_named description rows)

  unfoldable pub activity_by_description : String → M W (Option Row)
  activity_by_description description = do
    rows ← call (api.get_activity_log description)
    pure (row_named description rows)

  abbrev done_of : Bool × W → Option (Unit {0}) × W
  done_of (returned, w) = (if returned then some tt else none, w)

  unfoldable pub log_activity : ℕ → String → M W (Unit {0})
  log_activity clientid description = call (λ w. done_of (api.log_activity clientid description w))

  unfoldable pub add_note : ℕ → String → M W JsNumber
  add_note clientid notes = call (api.add_client_note clientid notes)

-- A row that was not found.
unfoldable pub found_or : {W : Type 0} → Thrown → Option Row → M W Row
found_or e none = throw e
found_or e (some r) = pure r
