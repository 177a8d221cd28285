-- ===== src/Auth/Scopes.antt =====
-- src/auth/scopes.ts. `String.prototype.trim` is a parameter. A look-up of a text in a table finds
-- the table's own keys; what it finds for the names that every object inherits is left out.
use whmcs_mcp_server.Prelude.{
  ℕ, String, Bool, false, ◌||◌, Option, none, some, List, [], ◌∷◌, leb, includes, str_eq,
  if◌then◌else◌,
}
use whmcs_mcp_server.Write.Scopes.{
  WriteRisk, low, medium, high, WriteScope, scope_text, scope_risk, client_note_write,
  ticket_create, ticket_reply, ticket_status, billing_invoice_create, billing_payment_add,
  billing_credit_add, billing_credit_transfer, billing_refund_record, service_price_restore,
  service_domain_rename, service_suspend, service_unsuspend, service_terminate,
  domain_nameservers_update, billing_payment_capture, billing_credit_apply, domain_register,
  domain_renew, order_accept, order_create, client_create, client_update, service_change_package,
  service_product_set, service_customfields_update, service_upgrade, domain_idprotect_toggle,
  domain_lock_toggle, client_contact_add, client_contact_update, billing_billable_item_add,
  billing_quote_create, billing_quote_update, billing_quote_send, billing_quote_accept, ticket_note,
  ticket_merge, service_transfer_owner, billing_invoice_reassign, order_cancel, order_pending,
  billing_invoice_update, billing_billable_item_update, domain_epp_request, domain_record_update,
  support_cancel_request_add, client_close, client_contact_delete,
}

-- Least to most privileged.
abbrev pub oauth_scopes : List String
oauth_scopes = "whmcs:read" ∷ "whmcs:write:low" ∷ "whmcs:write:medium" ∷ "whmcs:write:high" ∷ []

unfoldable pub scope_rank : String → Option ℕ
scope_rank s =
    if str_eq s "whmcs:write:high"
    then some 3
    else if str_eq s "whmcs:write:medium"
    then some 2
    else if str_eq s "whmcs:write:low"
    then some 1
    else if str_eq s "whmcs:read"
    then some 0
    else none

abbrev pub unknown_required_scope : String
unknown_required_scope = "whmcs:write:high"

abbrev pub required_scope_for_read : String
required_scope_for_read = "whmcs:read"

unfoldable pub required_scope_for_write : WriteRisk → String
required_scope_for_write low = "whmcs:write:low"
required_scope_for_write medium = "whmcs:write:medium"
required_scope_for_write high = "whmcs:write:high"

-- The keys of the table of risks.
abbrev pub write_scopes : List WriteScope
write_scopes =
    client_note_write ∷ ticket_create ∷ ticket_reply ∷ ticket_status ∷ billing_invoice_create
    ∷ billing_payment_add ∷ billing_credit_add ∷ billing_credit_transfer ∷ billing_refund_record
    ∷ service_price_restore ∷ service_domain_rename ∷ service_suspend ∷ service_unsuspend
    ∷ service_terminate ∷ domain_nameservers_update ∷ billing_payment_capture ∷ billing_credit_apply
    ∷ domain_register ∷ domain_renew ∷ order_accept ∷ order_create ∷ client_create ∷ client_update
    ∷ service_change_package ∷ service_product_set ∷ service_customfields_update ∷ service_upgrade
    ∷ domain_idprotect_toggle ∷ domain_lock_toggle ∷ client_contact_add ∷ client_contact_update
    ∷ billing_billable_item_add ∷ billing_quote_create ∷ billing_quote_update ∷ billing_quote_send
    ∷ billing_quote_accept ∷ ticket_note ∷ ticket_merge ∷ service_transfer_owner
    ∷ billing_invoice_reassign ∷ order_cancel ∷ order_pending ∷ billing_invoice_update
    ∷ billing_billable_item_update ∷ domain_epp_request ∷ domain_record_update
    ∷ support_cancel_request_add ∷ client_close ∷ client_contact_delete ∷ []

abbrev named_in : String → List WriteScope → Option WriteScope
named_in s [] = none
named_in s (w ∷ ws) = if str_eq (scope_text w) s then some w else named_in s ws

abbrev required_for : Option WriteScope → String
required_for none = unknown_required_scope
required_for (some w) = required_scope_for_write (scope_risk w)

-- `requiredScopeForWriteScope`
unfoldable pub scope_named : String → Option WriteScope
scope_named s = named_in s write_scopes

unfoldable pub required_scope_for_write_scope : String → String
unfolding scope_named required_scope_for_write
required_scope_for_write_scope s = required_for (scope_named s)

abbrev pub reaches : ℕ → Option ℕ → Bool
reaches required none = false
reaches required (some granted) = leb required granted

unfoldable pub any_reaches : ℕ → List String → Bool
unfolding scope_rank
any_reaches required [] = false
any_reaches required (g ∷ gs) = reaches required (scope_rank g) || any_reaches required gs

abbrev pub satisfied : Option ℕ → List String → Bool
satisfied none granted = false
satisfied (some required) granted = any_reaches required granted

unfoldable pub has_required_scope : List String → String → Bool
unfolding scope_rank any_reaches
has_required_scope granted required = satisfied (scope_rank required) granted

module _ (trim : String → String) where
  -- The loop of `grantedFromScopes`, with the scopes that are already seen.
  unfoldable pub granted_loop : List String → List String → List String
  granted_loop seen [] = []
  granted_loop seen (raw ∷ rest) =
      let s = trim raw in
      let kept = s ∷ granted_loop (s ∷ seen) rest in
      let skipped = granted_loop seen rest in
      if str_eq s "" || includes seen s then skipped else kept

  unfoldable pub granted_from_scopes : List String → List String
  unfolding granted_loop
  granted_from_scopes scopes = granted_loop [] scopes
