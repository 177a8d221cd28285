-- ===== src/Write/Scopes.antt =====
-- src/write/types.ts: write scopes, the WHMCS action and the risk of each, and the sets of actions
-- and scopes that the execution gate treats apart. A scope is an enum with its text.
use whmcs_mcp_server.Prelude.{String, List, [], ◌∷◌}

pub data WriteRisk : Type 0 where
  low medium high : WriteRisk

pub data WriteScope : Type 0 where
  client_note_write ticket_create ticket_reply ticket_status billing_invoice_create : WriteScope
  billing_payment_add billing_credit_add billing_credit_transfer : WriteScope
  billing_refund_record service_price_restore service_domain_rename service_suspend : WriteScope
  service_unsuspend service_terminate domain_nameservers_update : WriteScope
  billing_payment_capture billing_credit_apply domain_register domain_renew : WriteScope
  order_accept order_create client_create client_update service_change_package : WriteScope
  service_product_set service_customfields_update service_upgrade : WriteScope
  domain_idprotect_toggle domain_lock_toggle client_contact_add : WriteScope
  client_contact_update billing_billable_item_add billing_quote_create : WriteScope
  billing_quote_update billing_quote_send billing_quote_accept ticket_note : WriteScope
  ticket_merge service_transfer_owner billing_invoice_reassign order_cancel : WriteScope
  order_pending billing_invoice_update billing_billable_item_update : WriteScope
  domain_epp_request domain_record_update support_cancel_request_add client_close : WriteScope
  client_contact_delete : WriteScope

abbrev pub db_direct_action : String
db_direct_action = "__db_direct__"

abbrev pub credit_transfer_action : String
credit_transfer_action = "__client_credit_transfer__"

-- The text of a scope, as consumers and allowlists write it.
unfoldable pub scope_text : WriteScope → String
scope_text client_note_write = "client_note:write"
scope_text ticket_create = "ticket:create"
scope_text ticket_reply = "ticket:reply"
scope_text ticket_status = "ticket:status"
scope_text billing_invoice_create = "billing:invoice:create"
scope_text billing_payment_add = "billing:payment:add"
scope_text billing_credit_add = "billing:credit:add"
scope_text billing_credit_transfer = "billing:credit:transfer"
scope_text billing_refund_record = "billing:refund:record"
scope_text service_price_restore = "service:price_restore"
scope_text service_domain_rename = "service:domain_rename"
scope_text service_suspend = "service:suspend"
scope_text service_unsuspend = "service:unsuspend"
scope_text service_terminate = "service:terminate"
scope_text domain_nameservers_update = "domain:nameservers:update"
scope_text billing_payment_capture = "billing:payment:capture"
scope_text billing_credit_apply = "billing:credit:apply"
scope_text domain_register = "domain:register"
scope_text domain_renew = "domain:renew"
scope_text order_accept = "order:accept"
scope_text order_create = "order:create"
scope_text client_create = "client:create"
scope_text client_update = "client:update"
scope_text service_change_package = "service:change_package"
scope_text service_product_set = "service:product:set"
scope_text service_customfields_update = "service:customfields:update"
scope_text service_upgrade = "service:upgrade"
scope_text domain_idprotect_toggle = "domain:idprotect:toggle"
scope_text domain_lock_toggle = "domain:lock:toggle"
scope_text client_contact_add = "client:contact:add"
scope_text client_contact_update = "client:contact:update"
scope_text billing_billable_item_add = "billing:billable_item:add"
scope_text billing_quote_create = "billing:quote:create"
scope_text billing_quote_update = "billing:quote:update"
scope_text billing_quote_send = "billing:quote:send"
scope_text billing_quote_accept = "billing:quote:accept"
scope_text ticket_note = "ticket:note"
scope_text ticket_merge = "ticket:merge"
scope_text service_transfer_owner = "service:transfer_owner"
scope_text billing_invoice_reassign = "billing:invoice:reassign"
scope_text order_cancel = "order:cancel"
scope_text order_pending = "order:pending"
scope_text billing_invoice_update = "billing:invoice:update"
scope_text billing_billable_item_update = "billing:billable_item:update"
scope_text domain_epp_request = "domain:epp:request"
scope_text domain_record_update = "domain:record:update"
scope_text support_cancel_request_add = "support:cancel_request:add"
scope_text client_close = "client:close"
scope_text client_contact_delete = "client:contact:delete"

unfoldable pub scope_action : WriteScope → String
scope_action client_note_write = "AddClientNote"
scope_action ticket_create = "OpenTicket"
scope_action ticket_reply = "AddTicketReply"
scope_action ticket_status = "UpdateTicket"
scope_action billing_invoice_create = "CreateInvoice"
scope_action billing_payment_add = "AddInvoicePayment"
scope_action billing_credit_add = "AddCredit"
scope_action billing_credit_transfer = credit_transfer_action
scope_action billing_refund_record = "AddTransaction"
scope_action service_price_restore = "UpdateClientProduct"
scope_action service_domain_rename = "UpdateClientProduct"
scope_action service_suspend = "ModuleSuspend"
scope_action service_unsuspend = "ModuleUnsuspend"
scope_action service_terminate = "ModuleTerminate"
scope_action domain_nameservers_update = "DomainUpdateNameservers"
scope_action billing_payment_capture = "CapturePayment"
scope_action billing_credit_apply = "ApplyCredit"
scope_action domain_register = "DomainRegister"
scope_action domain_renew = "DomainRenew"
scope_action order_accept = "AcceptOrder"
scope_action order_create = "AddOrder"
scope_action client_create = "AddClient"
scope_action client_update = "UpdateClient"
scope_action service_change_package = "ModuleChangePackage"
scope_action service_product_set = "UpdateClientProduct"
scope_action service_customfields_update = "UpdateClientProduct"
scope_action service_upgrade = "UpgradeProduct"
scope_action domain_idprotect_toggle = "DomainToggleIdProtect"
scope_action domain_lock_toggle = "DomainUpdateLockingStatus"
scope_action client_contact_add = "AddContact"
scope_action client_contact_update = "UpdateContact"
scope_action billing_billable_item_add = "AddBillableItem"
scope_action billing_quote_create = "CreateQuote"
scope_action billing_quote_update = "UpdateQuote"
scope_action billing_quote_send = "SendQuote"
scope_action billing_quote_accept = "AcceptQuote"
scope_action ticket_note = "AddTicketNote"
scope_action ticket_merge = "MergeTicket"
scope_action service_transfer_owner = db_direct_action
scope_action billing_invoice_reassign = db_direct_action
scope_action order_cancel = "CancelOrder"
scope_action order_pending = "PendingOrder"
scope_action billing_invoice_update = "UpdateInvoice"
scope_action billing_billable_item_update = "UpdateBillableItem"
scope_action domain_epp_request = "DomainRequestEPP"
scope_action domain_record_update = "UpdateClientDomain"
scope_action support_cancel_request_add = "AddCancelRequest"
scope_action client_close = "CloseClient"
scope_action client_contact_delete = "DeleteContact"

unfoldable pub scope_risk : WriteScope → WriteRisk
scope_risk client_note_write = low
scope_risk ticket_create = low
scope_risk ticket_reply = low
scope_risk ticket_status = medium
scope_risk billing_invoice_create = medium
scope_risk billing_payment_add = high
scope_risk billing_credit_add = high
scope_risk billing_credit_transfer = high
scope_risk billing_refund_record = high
scope_risk service_price_restore = high
scope_risk service_domain_rename = medium
scope_risk service_suspend = medium
scope_risk service_unsuspend = medium
scope_risk service_terminate = high
scope_risk domain_nameservers_update = medium
scope_risk billing_payment_capture = high
scope_risk billing_credit_apply = high
scope_risk domain_register = high
scope_risk domain_renew = high
scope_risk order_accept = medium
scope_risk order_create = high
scope_risk client_create = medium
scope_risk client_update = medium
scope_risk service_change_package = medium
scope_risk service_product_set = medium
scope_risk service_customfields_update = medium
scope_risk service_upgrade = high
scope_risk domain_idprotect_toggle = low
scope_risk domain_lock_toggle = medium
scope_risk client_contact_add = medium
scope_risk client_contact_update = medium
scope_risk billing_billable_item_add = medium
scope_risk billing_quote_create = medium
scope_risk billing_quote_update = medium
scope_risk billing_quote_send = low
scope_risk billing_quote_accept = high
scope_risk ticket_note = low
scope_risk ticket_merge = medium
scope_risk service_transfer_owner = high
scope_risk billing_invoice_reassign = high
scope_risk order_cancel = medium
scope_risk order_pending = medium
scope_risk billing_invoice_update = medium
scope_risk billing_billable_item_update = medium
scope_risk domain_epp_request = low
scope_risk domain_record_update = medium
scope_risk support_cancel_request_add = medium
scope_risk client_close = medium
scope_risk client_contact_delete = high

-- Actions that no allowlist can open.
unfoldable pub prod_never_executable : List String
prod_never_executable =
    "DeleteClient" ∷ "DeleteInvoice" ∷ "DeleteTransaction" ∷ "DeletePayMethod" ∷ "DeleteContact"
    ∷ "TerminateService" ∷ "ModuleTerminate" ∷ "MassTerminate" ∷ "DomainTransfer" ∷ "DomainRelease"
    ∷ "DeleteDomain" ∷ "SetConfigurationValue" ∷ "UpdateAdmin" ∷ "CreateAdmin" ∷ "DeleteAdmin"
    ∷ "CreateOAuthCredential" ∷ "DeleteOAuthCredential" ∷ "UpdateApiCredential" ∷ []

unfoldable pub prod_never_executable_scopes : List String
prod_never_executable_scopes = "service:terminate" ∷ "domain:transfer" ∷ "domain:release" ∷ []

unfoldable pub destructive_write_scopes : List String
destructive_write_scopes =
    "service:terminate" ∷ "domain:transfer" ∷ "domain:release" ∷ "client:contact:delete" ∷ []
