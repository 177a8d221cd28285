-- ===== src/Write/CreditTransfer/Ready.antt =====
-- src/write/creditTransfer.ts, `executeUnlocked`: what the checks before a transfer establish.
use whmcs_mcp_server.Prelude.JsNumber.{finite}
use whmcs_mcp_server.Prelude.{
  ap, ◌⊎◌, eq_iff, ℕ, ℤ, pos, String, ◌≡◌, refl, inl, inr, true, false, Option, none, some, arith,
  str_eq, Bool-cases, ltb_ℤ, not, ◌==◌,
}
use whmcs_mcp_server.Write.CreditTransfer.Types.{
  CreditTransferState, completed, CreditTransferStore, find, CreditTransferRecord,
  CreditTransferInput,
}
use whmcs_mcp_server.Write.CreditTransfer.Program.{
  ClientResponse, gets, require, throw, Api, Js, Machine, ok, ◌>>=◌, pure, client_details,
  ClientSnapshot,
}
use whmcs_mcp_server.Write.CreditTransfer.Compensation.{Setting}
use whmcs_mcp_server.Write.CreditTransfer.Execute.{
  is_none_id, is_completed, prepare, resolve_reversal, reverse_of, check_clients,
}
use whmcs_mcp_server.Write.CreditTransfer.Yields.{
  Yields-call, Yields-money, Yields-from, Yields, Yields-require, Yields-weaken, Yields-pure,
  Yields-bind,
}

-- The input that a transfer is made of: the given one, or for a reversal the one that takes back a
-- completed transfer of the store, which none has reversed before.
abbrev pub IsEffectiveAs :
    CreditTransferStore → CreditTransferInput → CreditTransferInput → Option String → Type 0
IsEffectiveAs store given input none = input ≡ given
IsEffectiveAs store given input (some id) =
    ((id ≡ "") × (input ≡ given))
    ⊎ ((original : CreditTransferRecord) × (find id store ≡ some original)
        × (original.state ≡ completed)
        × (is_none_id original.reversed_by_transfer_id ≡ true)
        × (input ≡ record given {
          source_clientid = original.destination_clientid;
          destination_clientid = original.source_clientid;
          amount = finite original.amount;
        }))

IsEffectiveAs-request_id :
    (store : CreditTransferStore) (given input : CreditTransferInput) (o : Option String)
    → IsEffectiveAs store given input o
    → input.request_id ≡ given.request_id
IsEffectiveAs-request_id store given input none h = ap (λ i. i.request_id) h
IsEffectiveAs-request_id store given input (some id) (inl (_, h)) = ap (λ i. i.request_id) h
IsEffectiveAs-request_id store given input (some id) (inr (_, _, _, _, h)) =
    ap (λ i. i.request_id) h

pub is_completed-completed : (s : CreditTransferState) → is_completed s ≡ true → s ≡ completed
is_completed-completed s h = ground arith

module _ {W : Type 0} (js : Js) where
  reverse_of-IsEffectiveAs :
      (id : String) (given : CreditTransferInput) (o : Option CreditTransferRecord) (st : Machine W)
      (input : CreditTransferInput)
      → find id st.store ≡ o
      → (reverse_of js given o st).0 ≡ ok input
      → IsEffectiveAs st.store given input (some id)
  unfolding reverse_of ◌>>=◌ require pure throw
  reverse_of-IsEffectiveAs id given none st input e h = absurd (ground arith)
  reverse_of-IsEffectiveAs id given (some original) st input e h = inr (
    original,
    e,
    is_completed-completed original.state (ground arith),
    ground arith,
    ground arith,
  )

  resolve_reversal-IsEffectiveAs :
      (given : CreditTransferInput) (o : Option String) (st : Machine W)
      (input : CreditTransferInput)
      → (resolve_reversal js given o st).0 ≡ ok input
      → IsEffectiveAs st.store given input o
  unfolding resolve_reversal ◌>>=◌ gets pure
  resolve_reversal-IsEffectiveAs given none st input h = cc
  resolve_reversal-IsEffectiveAs given (some id) st input h = elim (Bool-cases (str_eq id "")) [
    | inl blank ↦ inl ((eq_iff id "").0 blank, cc (rw blank at h))
    | inr named ↦ reverse_of-IsEffectiveAs id given _ st input refl (rw named at h)
  ]

-- WHMCS has answered that the client has this credit.
abbrev pub HasCredit : {W : Type 0} → Api W → ℕ → ℤ → Type 0
HasCredit {W} api id credit =
    (w : W) × (r : ClientResponse) × ((api.get_clients_details id w).0 ≡ some r)
    × (r.credit ≡ finite credit)

-- What the checks leave: a positive amount that the source has, as WHMCS answered, between two
-- clients; the clients and the amount are those of the request.
pub record IsReady {W : Type 0} (api : Api W) (store : CreditTransferStore)
    (given : CreditTransferInput) (ready : Setting × CreditTransferRecord) : Type 0 where
  pub positive : ltb_ℤ (pos 0) ready.0.amount ≡ true
  pub covered : ltb_ℤ ready.0.source.credit ready.0.amount ≡ false
  pub answered : HasCredit api ready.0.source.clientid ready.0.source.credit
  pub distinct : (ready.0.source.clientid == ready.0.destination.clientid) ≡ false
  pub input : CreditTransferInput
  pub effective : IsEffectiveAs store given input given.reverses_transfer_id
  pub source_is : ready.0.source.clientid ≡ input.source_clientid
  pub destination_is : ready.0.destination.clientid ≡ input.destination_clientid
  pub amount_is : input.amount ≡ finite ready.0.amount
  pub request_is : ready.1.request_id ≡ given.request_id

module _ {W : Type 0} (api : Api W) (js : Js) where
  client_details-HasCredit :
      (id : ℕ)
      → Yields (λ s. (s.clientid ≡ id) × HasCredit api s.clientid s.credit) (client_details api id)
  unfolding client_details
  client_details-HasCredit id =
      Yields-weaken _ _ (Yields-call _)
        λ r (w, e). Yields-weaken _ _ (Yields-money _) λ c h. Yields-pure _ (refl, (w, r, e, h))

  record Checked (input : CreditTransferInput) (amount : ℤ) (both : ClientSnapshot × ClientSnapshot)
      : Type 0 where
    source_is : both.0.clientid ≡ input.source_clientid
    destination_is : both.1.clientid ≡ input.destination_clientid
    answered : HasCredit api both.0.clientid both.0.credit
    enough : ltb_ℤ both.0.credit amount ≡ false

  check_clients-Checked :
      (input : CreditTransferInput) (amount : ℤ)
      → Yields {W = W} (Checked input amount) (check_clients api js input amount)
  unfolding check_clients
  check_clients-Checked input amount = Yields-weaken _ _ (client_details-HasCredit _) λ s hs.
      Yields-weaken _ _ (client_details-HasCredit _) λ d hd. Yields-bind _ _ λ _.
        Yields-bind _ _ λ _. Yields-weaken _ _ (Yields-require _ _) λ _ e. Yields-pure _ (record {
          source_is = hs.0;
          destination_is = hd.0;
          answered = hs.1;
          enough = ground arith;
        })

  unequal : (a b c d : ℕ) → c ≡ a → d ≡ b → not (a == b) ≡ true → (c == d) ≡ false
  unequal a b c d p q h = ground arith

  pub prepare-IsReady :
      (given : CreditTransferInput) (uuid : String) (st : Machine W)
      (ready : Setting × CreditTransferRecord)
      → (prepare api js given uuid st).0 ≡ ok ready
      → IsReady api st.store given ready
  unfolding prepare
  prepare-IsReady given uuid st =
      Yields-from _ _ st (resolve_reversal-IsEffectiveAs js given given.reverses_transfer_id st)
        λ input effective. Yields-weaken _ _ (Yields-require _ _) λ _ distinct.
          Yields-weaken _ _ (Yields-money _) λ amount is_amount.
            Yields-weaken _ _ (Yields-require _ _) λ _ positive.
              Yields-weaken _ _ (check_clients-Checked input amount) λ both c.
                Yields-bind _ _ λ tax. Yields-bind _ _ λ a. Yields-bind _ _ λ b.
                  Yields-bind _ _ λ _. Yields-pure _ (record {
                    positive = positive;
                    covered = c.enough;
                    answered = c.answered;
                    distinct = unequal _ _ _ _ c.source_is c.destination_is distinct;
                    input = input;
                    effective = effective;
                    source_is = c.source_is;
                    destination_is = c.destination_is;
                    amount_is = is_amount;
                    request_is =
                        IsEffectiveAs-request_id st.store given input given.reverses_transfer_id
                          effective;
                  })
