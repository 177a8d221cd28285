-- ===== src/Auth/Granted.antt =====
-- What a token's scopes satisfy.
use whmcs_mcp_server.Prelude.{
  ℕ, String, ◌≡◌, refl, Bool, true, false, ◌||◌, Option, none, some, List, [], ◌∷◌, map, leb, arith,
  includes, str_eq, eq_iff, Bool-cases, inl, inr,
}
use whmcs_mcp_server.Write.Scopes.{
  WriteRisk, low, medium, high, WriteScope, scope_text, scope_risk, client_note_write,
  ticket_create, ticket_reply, ticket_status, billing_invoice_create, billing_payment_add,
  billing_credit_add, billing_credit_transfer, billing_refund_record, service_price_restore,
  service_domain_rename, service_suspend, service_unsuspend, service_terminate,
  domain_nameservers_update, billing_payment_capture, billing_credit_apply, domain_register,
  domain_renew, order_accept, order_create, client_create, client_update, service_change_package,
  service_product_set, service_customfields_update, service_upgrade, domain_idprotect_toggle,
  domain_lock_toggle, client_contact_add, client_contact_update, billing_billable_item_add,
  billing_quote_create, billing_quote_update, billing_quote_send, billing_quote_accept, ticket_note,
  ticket_merge, service_transfer_owner, billing_invoice_reassign, order_cancel, order_pending,
  billing_invoice_update, billing_billable_item_update, domain_epp_request, domain_record_update,
  support_cancel_request_add, client_close, client_contact_delete,
}
use whmcs_mcp_server.Auth.Scopes.{
  scope_rank, required_scope_for_write, required_scope_for_write_scope, has_required_scope,
  any_reaches, reaches, scope_named, granted_loop, granted_from_scopes, satisfied,
}

abbrev pub rank_of : WriteRisk → ℕ
rank_of low = 1
rank_of medium = 2
rank_of high = 3

scope_named-scope_text : (w : WriteScope) → scope_named (scope_text w) ≡ some w
unfolding scope_named scope_text
scope_named-scope_text client_note_write = refl
scope_named-scope_text ticket_create = refl
scope_named-scope_text ticket_reply = refl
scope_named-scope_text ticket_status = refl
scope_named-scope_text billing_invoice_create = refl
scope_named-scope_text billing_payment_add = refl
scope_named-scope_text billing_credit_add = refl
scope_named-scope_text billing_credit_transfer = refl
scope_named-scope_text billing_refund_record = refl
scope_named-scope_text service_price_restore = refl
scope_named-scope_text service_domain_rename = refl
scope_named-scope_text service_suspend = refl
scope_named-scope_text service_unsuspend = refl
scope_named-scope_text service_terminate = refl
scope_named-scope_text domain_nameservers_update = refl
scope_named-scope_text billing_payment_capture = refl
scope_named-scope_text billing_credit_apply = refl
scope_named-scope_text domain_register = refl
scope_named-scope_text domain_renew = refl
scope_named-scope_text order_accept = refl
scope_named-scope_text order_create = refl
scope_named-scope_text client_create = refl
scope_named-scope_text client_update = refl
scope_named-scope_text service_change_package = refl
scope_named-scope_text service_product_set = refl
scope_named-scope_text service_customfields_update = refl
scope_named-scope_text service_upgrade = refl
scope_named-scope_text domain_idprotect_toggle = refl
scope_named-scope_text domain_lock_toggle = refl
scope_named-scope_text client_contact_add = refl
scope_named-scope_text client_contact_update = refl
scope_named-scope_text billing_billable_item_add = refl
scope_named-scope_text billing_quote_create = refl
scope_named-scope_text billing_quote_update = refl
scope_named-scope_text billing_quote_send = refl
scope_named-scope_text billing_quote_accept = refl
scope_named-scope_text ticket_note = refl
scope_named-scope_text ticket_merge = refl
scope_named-scope_text service_transfer_owner = refl
scope_named-scope_text billing_invoice_reassign = refl
scope_named-scope_text order_cancel = refl
scope_named-scope_text order_pending = refl
scope_named-scope_text billing_invoice_update = refl
scope_named-scope_text billing_billable_item_update = refl
scope_named-scope_text domain_epp_request = refl
scope_named-scope_text domain_record_update = refl
scope_named-scope_text support_cancel_request_add = refl
scope_named-scope_text client_close = refl
scope_named-scope_text client_contact_delete = refl

-- A token with the scope of one risk may use a write scope exactly when the risk of that write
-- scope is not higher.
pub has_required_scope-required_scope_for_write_scope :
    (held : WriteRisk) (w : WriteScope)
    → has_required_scope
        (required_scope_for_write held ∷ [])
        (required_scope_for_write_scope (scope_text w))
      ≡ leb (rank_of (scope_risk w)) (rank_of held)
unfolding required_scope_for_write_scope has_required_scope any_reaches scope_rank
    required_scope_for_write
has_required_scope-required_scope_for_write_scope held w =
    rw (scope_named-scope_text w) (by_risk held (scope_risk w))
  where
    by_risk :
        (held risk : WriteRisk)
        → has_required_scope (required_scope_for_write held ∷ []) (required_scope_for_write risk)
          ≡ leb (rank_of risk) (rank_of held)
    by_risk low low = refl
    by_risk low medium = refl
    by_risk low high = refl
    by_risk medium low = refl
    by_risk medium medium = refl
    by_risk medium high = refl
    by_risk high low = refl
    by_risk high medium = refl
    by_risk high high = refl

-- A scope that is seen reaches nothing more.
seen-reaches :
    (n : ℕ) (s : String) (seen : List String)
    → includes seen s ≡ true
    → reaches n (scope_rank s) ≡ true
    → any_reaches n seen ≡ true
unfolding any_reaches
seen-reaches n s [] h k = cc
seen-reaches n s (t ∷ ts) h k = elim (Bool-cases (str_eq t s)) [
  | inl same ↦ rw ((eq_iff t s).0 same) (rw k refl)
  | inr other ↦ let rest = seen-reaches n s ts (rw other at h) k in ground arith
]

blank-reaches : (n : ℕ) (s : String) → str_eq s "" ≡ true → reaches n (scope_rank s) ≡ false
unfolding scope_rank
blank-reaches n s h = rw ((eq_iff s "").0 h) refl

or_false_cancel : (a b : Bool) → (a || false) ≡ (b || false) → a ≡ b
or_false_cancel a b h = ground arith

module _ (trim : String → String) where
  granted_loop-reaches :
      (n : ℕ) (seen raws : List String)
      → (any_reaches n (granted_loop trim seen raws) || any_reaches n seen)
        ≡ (any_reaches n (map trim raws) || any_reaches n seen)
  unfolding granted_loop any_reaches
  granted_loop-reaches n seen [] = refl
  granted_loop-reaches n seen (raw ∷ rest) =
      let s = trim raw in
      let skipped = granted_loop-reaches n seen rest in
      let kept = granted_loop-reaches n (s ∷ seen) rest in
      let again = seen-reaches n s seen in
      let blank = blank-reaches n s in ground (arith, skipped, kept, again, blank)

  -- Once the scopes are trimmed, dropping blanks and repetitions changes nothing about what is
  -- satisfied.
  pub has_required_scope-granted_from_scopes :
      (raws : List String) (required : String)
      → has_required_scope (granted_from_scopes trim raws) required
        ≡ has_required_scope (map trim raws) required
  unfolding has_required_scope granted_from_scopes
  has_required_scope-granted_from_scopes raws required = by_rank (scope_rank required)
    where
      by_rank :
          (o : Option ℕ) → satisfied o (granted_loop trim [] raws) ≡ satisfied o (map trim raws)
      by_rank none = refl
      by_rank (some n) = or_false_cancel _ _ (granted_loop-reaches n [] raws)
