-- ===== src/Write/CreditTransfer/Legs/Settled.antt =====
-- How a transfer whose legs have both returned ends.
use whmcs_mcp_server.Prelude.{◌≡◌, refl, ◌⊎◌, inl, inr, Bool, true, false, Option, some, ℕ, String}
use whmcs_mcp_server.Write.CreditTransfer.Types.{
  CreditTransferRecord, CreditTransferState, completed, audit_repair_required,
}
use whmcs_mcp_server.Write.CreditTransfer.Program.{Api, Js, Machine, Outcome, ok, threw}
use whmcs_mcp_server.Write.CreditTransfer.Compensation.{Setting}
use whmcs_mcp_server.Write.CreditTransfer.Settlement.{
  state_if, artifacts, mark_reversal, finish, reconcile, settle,
}
use whmcs_mcp_server.Write.CreditTransfer.Yields.{
  Yields, Yields-pure, Yields-bind, Yields-weaken, Yields-attempt, yields_rules,
}
use whmcs_mcp_server.Write.CreditTransfer.Legs.{IsSettled}

module _ {W : Type 0} (api : Api W) (js : Js) (set : Setting) where
  abbrev EndsWell : CreditTransferRecord → Type 0
  EndsWell r = (r.state ≡ completed) ⊎ (r.state ≡ audit_repair_required)

  state_if-EndsWell : (b : Bool) → (state_if b ≡ completed) ⊎ (state_if b ≡ audit_repair_required)
  state_if-EndsWell true = inl refl
  state_if-EndsWell false = inr refl

  artifacts-EndsWell :
      (r : CreditTransferRecord) (a b : ℕ) → Yields {W = W} EndsWell (artifacts api js set r a b)
  unfolding artifacts
  artifacts-EndsWell r a b = search (yields_rules, state_if-EndsWell) depth 60

  mark_reversal-EndsWell :
      (s : CreditTransferState) (done : CreditTransferRecord) (id : Option String)
      → EndsWell done
      → Yields {W = W} EndsWell (mark_reversal api js set s done id)
  mark_reversal-EndsWell CreditTransferState.completed done (some id) h =
      Yields-bind _ _ λ original. Yields-bind _ _ λ _. Yields-pure done h
  mark_reversal-EndsWell _ done _ h = Yields-pure done h

  finish-EndsWell :
      (r : CreditTransferRecord) (o : Outcome CreditTransferRecord)
      → ((done : CreditTransferRecord) → o ≡ ok done → EndsWell done)
      → Yields {W = W} EndsWell (finish api js set r o)
  unfolding finish
  finish-EndsWell r (threw e) h = Yields-bind _ _ λ _. Yields-pure _ (inr refl)
  finish-EndsWell r (ok done) h =
      mark_reversal-EndsWell done.state done set.subject.reverses (h done refl)

  reconcile-EndsWell :
      (b : Bool) (r : CreditTransferRecord) (x y : ℕ)
      → Yields {W = W} EndsWell (reconcile api js set b r x y)
  unfolding reconcile
  reconcile-EndsWell false r x y = Yields-bind _ _ λ _. Yields-pure _ (inr refl)
  reconcile-EndsWell true r x y =
      Yields-weaken _ _ (Yields-attempt _ (artifacts-EndsWell r x y)) λ o h. finish-EndsWell r o h

  settle-EndsWell : (r : CreditTransferRecord) → Yields {W = W} EndsWell (settle api js set r)
  unfolding settle
  settle-EndsWell r = search (yields_rules, reconcile-EndsWell) depth 60

  pub settle-IsSettled :
      (r : CreditTransferRecord) (st : Machine W) → IsSettled (settle api js set r st).0
  settle-IsSettled r st = go (settle api js set r st).0 ((settle-EndsWell r).at st)
    where
      go :
          (o : Outcome CreditTransferRecord)
          → ((done : CreditTransferRecord) → o ≡ ok done → EndsWell done)
          → IsSettled o
      go (ok done) h = h done refl
      go (threw e) h = tt
