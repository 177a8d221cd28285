-- ===== src/Write/Mapping/Strict/Table.antt =====
-- src/write/paramMapping.ts: the keys that the comments of the mappers promise for each scope, and
-- the keys of the two scopes that are carried out on the database.
use whmcs_mcp_server.Prelude.{String, ◌≡◌, ◌≢◌, none, true, List, [], ◌∷◌, ◌⊎◌, includes}
use whmcs_mcp_server.Json.{Json, Fields, end, field, property}
use whmcs_mcp_server.Write.Scopes.{
  WriteScope, client_note_write, ticket_create, ticket_reply, ticket_status, billing_invoice_create,
  billing_payment_add, billing_credit_add, billing_credit_transfer, billing_refund_record,
  service_price_restore, service_domain_rename, service_suspend, service_unsuspend,
  service_terminate, domain_nameservers_update, billing_payment_capture, billing_credit_apply,
  domain_register, domain_renew, order_accept, order_create, client_create, client_update,
  service_change_package, service_product_set, service_customfields_update, service_upgrade,
  domain_idprotect_toggle, domain_lock_toggle, client_contact_add, client_contact_update,
  billing_billable_item_add, billing_quote_create, billing_quote_update, billing_quote_send,
  billing_quote_accept, ticket_note, ticket_merge, service_transfer_owner, billing_invoice_reassign,
  order_cancel, order_pending, billing_invoice_update, billing_billable_item_update,
  domain_epp_request, domain_record_update, support_cancel_request_add, client_close,
  client_contact_delete,
}
use whmcs_mcp_server.Write.Mapping.Values.{Js, array_or_empty}
use whmcs_mcp_server.Write.Mapping.Services.{
  MappingError, price_restore_is_batch_shaped, cannot_convert, set_entries, record_or_empty,
  Mapping, mapped, refused,
}
use whmcs_mcp_server.Write.Mapping.Strict.Keys.{HasKeys, IsItemKey}

abbrev pub promised_keys : WriteScope → List String
promised_keys client_note_write = "userid" ∷ "notes" ∷ "sticky" ∷ []
promised_keys ticket_create =
    "deptid" ∷ "subject" ∷ "message" ∷ "clientid" ∷ "name" ∷ "email" ∷ "priority" ∷ "serviceid" ∷ []
promised_keys ticket_reply = "ticketid" ∷ "message" ∷ "clientid" ∷ "name" ∷ "email" ∷ []
promised_keys ticket_status = "ticketid" ∷ "status" ∷ []
promised_keys billing_invoice_create =
    "userid" ∷ "status" ∷ "date" ∷ "duedate" ∷ "paymentmethod" ∷ "taxrate" ∷ "taxrate2" ∷ "notes"
    ∷ []
promised_keys billing_payment_add = "invoiceid" ∷ "amount" ∷ "date" ∷ "transid" ∷ "gateway" ∷ []
promised_keys billing_credit_add = "clientid" ∷ "amount" ∷ "description" ∷ []
promised_keys billing_credit_transfer =
    "source_clientid" ∷ "destination_clientid" ∷ "amount" ∷ "request_id" ∷ "reverses_transfer_id"
    ∷ []
promised_keys billing_refund_record =
    "invoiceid" ∷ "amountout" ∷ "description" ∷ "paymentmethod" ∷ "transid" ∷ "credit" ∷ []
promised_keys service_price_restore = []
promised_keys service_domain_rename = "serviceid" ∷ "domain" ∷ []
promised_keys service_suspend = "serviceid" ∷ "suspendreason" ∷ []
promised_keys service_unsuspend = "serviceid" ∷ []
promised_keys service_terminate = "serviceid" ∷ []
promised_keys domain_nameservers_update = "domainid" ∷ "ns1" ∷ "ns2" ∷ "ns3" ∷ "ns4" ∷ "ns5" ∷ []
promised_keys billing_payment_capture = "invoiceid" ∷ []
promised_keys billing_credit_apply = "invoiceid" ∷ "amount" ∷ []
promised_keys domain_register = "domainid" ∷ "ns1" ∷ "ns2" ∷ "ns3" ∷ "ns4" ∷ "ns5" ∷ []
promised_keys domain_renew = "domainid" ∷ "regperiod" ∷ []
promised_keys order_accept = "orderid" ∷ "autosetup" ∷ "sendemail" ∷ []
promised_keys order_create =
    "clientid" ∷ "domain" ∷ "domaintype" ∷ "regperiod" ∷ "domainpriceoverride" ∷ "paymentmethod"
    ∷ "noinvoice" ∷ "noinvoiceemail" ∷ "noemail" ∷ []
promised_keys client_create =
    "firstname" ∷ "lastname" ∷ "email" ∷ "companyname" ∷ "address1" ∷ "address2" ∷ "city" ∷ "state"
    ∷ "postcode" ∷ "country" ∷ "phonenumber" ∷ "password2" ∷ "currency" ∷ "clientgroup" ∷ "notes"
    ∷ "customfields" ∷ []
promised_keys client_update =
    "clientid" ∷ "firstname" ∷ "lastname" ∷ "email" ∷ "companyname" ∷ "address1" ∷ "address2"
    ∷ "city" ∷ "state" ∷ "postcode" ∷ "country" ∷ "phonenumber" ∷ "password2" ∷ "currency"
    ∷ "clientgroup" ∷ "notes" ∷ "customfields" ∷ []
promised_keys service_change_package = "serviceid" ∷ []
promised_keys service_product_set = "serviceid" ∷ "pid" ∷ "billingcycle" ∷ []
promised_keys service_customfields_update = "serviceid" ∷ "customfields" ∷ []
promised_keys service_upgrade =
    "serviceid" ∷ "type" ∷ "newproductid" ∷ "newproductbillingcycle" ∷ "configoptions" ∷ "addonid"
    ∷ "promocode" ∷ "paymentmethod" ∷ []
promised_keys domain_idprotect_toggle = "domainid" ∷ "idprotect" ∷ []
promised_keys domain_lock_toggle = "domainid" ∷ "lockstatus" ∷ []
promised_keys client_contact_add =
    "clientid" ∷ "firstname" ∷ "lastname" ∷ "email" ∷ "companyname" ∷ "address1" ∷ "address2"
    ∷ "city" ∷ "state" ∷ "postcode" ∷ "country" ∷ "phonenumber" ∷ []
promised_keys client_contact_update =
    "contactid" ∷ "firstname" ∷ "lastname" ∷ "email" ∷ "companyname" ∷ "address1" ∷ "address2"
    ∷ "city" ∷ "state" ∷ "postcode" ∷ "country" ∷ "phonenumber" ∷ []
promised_keys billing_billable_item_add =
    "clientid" ∷ "description" ∷ "amount" ∷ "recur" ∷ "recurcycle" ∷ "recurfor" ∷ "invoiceaction"
    ∷ "duedate" ∷ []
promised_keys billing_quote_create =
    "subject" ∷ "stage" ∷ "validuntil" ∷ "userid" ∷ "firstname" ∷ "lastname" ∷ "companyname"
    ∷ "email" ∷ "currency" ∷ "datecreated" ∷ "customernotes" ∷ "lineitems" ∷ []
promised_keys billing_quote_update =
    "quoteid" ∷ "subject" ∷ "stage" ∷ "validuntil" ∷ "currency" ∷ "customernotes" ∷ "lineitems" ∷ []
promised_keys billing_quote_send = "quoteid" ∷ []
promised_keys billing_quote_accept = "quoteid" ∷ []
promised_keys ticket_note = "ticketid" ∷ "message" ∷ []
promised_keys ticket_merge = "ticketid" ∷ "mergeticketids" ∷ []
promised_keys service_transfer_owner = []
promised_keys billing_invoice_reassign = []
promised_keys order_cancel = "orderid" ∷ "cancelsub" ∷ []
promised_keys order_pending = "orderid" ∷ []
promised_keys billing_invoice_update =
    "invoiceid" ∷ "status" ∷ "paymentmethod" ∷ "notes" ∷ "date" ∷ "duedate" ∷ "datepaid" ∷ "credit"
    ∷ "taxrate" ∷ "taxrate2" ∷ []
promised_keys billing_billable_item_update =
    "itemid" ∷ "description" ∷ "amount" ∷ "invoiceaction" ∷ "duedate" ∷ []
promised_keys domain_epp_request = "domainid" ∷ []
promised_keys domain_record_update =
    "domainid" ∷ "status" ∷ "nextduedate" ∷ "expirydate" ∷ "recurringamount" ∷ "registrar"
    ∷ "paymentmethod" ∷ "dnsmanagement" ∷ "emailforwarding" ∷ "idprotection" ∷ []
promised_keys support_cancel_request_add = "serviceid" ∷ "type" ∷ "reason" ∷ []
promised_keys client_close = "clientid" ∷ []
promised_keys client_contact_delete = "contactid" ∷ []

abbrev pub names : Fields → List String
names end = []
names (field k v fs) = k ∷ names fs

-- The keys that a scope may send: those promised, an invoice's flattened items besides, and for the
-- two scopes that send nothing to WHMCS those of the intent.
abbrev pub MaySend : Js → Fields → WriteScope → String → Type 0
MaySend js params billing_invoice_create k =
    (includes (promised_keys billing_invoice_create) k ≡ true) ⊎ IsItemKey js k
MaySend js params service_transfer_owner k = includes (names params) k ≡ true
MaySend js params billing_invoice_reassign k = includes (names params) k ≡ true
MaySend js params scope k = includes (promised_keys scope) k ≡ true

-- The conversion of one of the values to a text throws.
abbrev pub HasUnprintable : Js → List (String × Json) → Type 0
HasUnprintable js [] = ⊥
HasUnprintable js ((k, v) ∷ es) = (js.string_of v ≡ none) ⊎ HasUnprintable js es

-- The scopes whose mapper can throw, and when.
abbrev pub MayRefuse : Js → Fields → WriteScope → MappingError → Type 0
MayRefuse js params service_price_restore e = e ≡ price_restore_is_batch_shaped
MayRefuse js params order_create e = e ≢ price_restore_is_batch_shaped
MayRefuse js params service_customfields_update e =
    (e ≡ cannot_convert)
    × HasUnprintable js (set_entries (record_or_empty (property "customfields" params)))
MayRefuse js params ticket_merge e =
    (e ≡ cannot_convert) × (js.join (array_or_empty (property "mergeticketids" params)) ≡ none)
MayRefuse js params _ e = ⊥

abbrev pub IsStrict : Js → Fields → WriteScope → Mapping → Type 0
IsStrict js params scope (mapped out) = HasKeys (MaySend js params scope) out
IsStrict js params scope (refused e) = MayRefuse js params scope e
