-- ===== src/Write/Mapping/Dispatch.antt =====
-- src/write/paramMapping.ts: `intentToWhmcsParams`. An intent's parameters are an object by their
-- type.
use whmcs_mcp_server.Prelude.{String, Option, some, List, [], ◌∷◌}
use whmcs_mcp_server.Json.{Fields, end, field, property}
use whmcs_mcp_server.Write.Scopes.{
  WriteScope, client_note_write, ticket_create, ticket_reply, ticket_status, billing_invoice_create,
  billing_payment_add, billing_credit_add, billing_credit_transfer, billing_refund_record,
  service_price_restore, service_domain_rename, service_suspend, service_unsuspend,
  service_terminate, domain_nameservers_update, billing_payment_capture, billing_credit_apply,
  domain_register, domain_renew, order_accept, order_create, client_create, client_update,
  service_change_package, service_product_set, service_customfields_update, service_upgrade,
  domain_idprotect_toggle, domain_lock_toggle, client_contact_add, client_contact_update,
  billing_billable_item_add, billing_quote_create, billing_quote_update, billing_quote_send,
  billing_quote_accept, ticket_note, ticket_merge, service_transfer_owner, billing_invoice_reassign,
  order_cancel, order_pending, billing_invoice_update, billing_billable_item_update,
  domain_epp_request, domain_record_update, support_cancel_request_add, client_close,
  client_contact_delete,
}
use whmcs_mcp_server.Write.Mapping.Values.{Js, Output, pick_fields}
use whmcs_mcp_server.Write.Mapping.Billing.{
  map_billable_item_params, map_credit_add_params, map_credit_apply_params,
  map_invoice_create_params, map_invoice_payment_params, map_quote_create_params,
  map_quote_update_params, map_refund_record_params, copy_key,
}
use whmcs_mcp_server.Write.Mapping.Clients.{
  map_client_create_params, map_client_note_params, map_client_update_params,
  map_contact_add_params, map_contact_update_params, map_ticket_create_params,
  map_ticket_merge_params, map_ticket_note_params, map_ticket_reply_params,
  map_ticket_status_params,
}
use whmcs_mcp_server.Write.Mapping.Domains.{
  map_domain_id_protect_params, map_domain_lock_params, map_domain_nameservers_params,
  map_domain_register_params, map_domain_renew_params,
}
use whmcs_mcp_server.Write.Mapping.Services.{
  Mapping, mapped, refused, price_restore_is_batch_shaped, map_order_accept_params,
  map_order_create_params, map_service_custom_fields_params, map_service_domain_rename_params,
  map_service_product_set_params, map_service_suspend_params, map_service_upgrade_params,
}

-- `{ ...params }`
unfoldable pub copy_all : Fields → Output
copy_all end = []
copy_all (field k v fs) = (k, some v) ∷ copy_all fs

unfoldable pub map_credit_transfer_preview : Fields → Output
map_credit_transfer_preview params =
    ("source_clientid", property "source_clientid" params)
    ∷ ("destination_clientid", property "destination_clientid" params)
    ∷ ("amount", property "amount" params)
    ∷ ("request_id", property "request_id" params)
    ∷ ("reverses_transfer_id", property "reverses_transfer_id" params)
    ∷ []

abbrev pub invoice_update_fields : List String
invoice_update_fields =
    "invoiceid" ∷ "status" ∷ "paymentmethod" ∷ "notes" ∷ "date" ∷ "duedate" ∷ "datepaid" ∷ "credit"
    ∷ "taxrate" ∷ "taxrate2" ∷ []

abbrev pub billable_item_update_fields : List String
billable_item_update_fields = "itemid" ∷ "description" ∷ "amount" ∷ "invoiceaction" ∷ "duedate" ∷ []

abbrev pub domain_record_fields : List String
domain_record_fields =
    "domainid" ∷ "status" ∷ "nextduedate" ∷ "expirydate" ∷ "recurringamount" ∷ "registrar"
    ∷ "paymentmethod" ∷ "dnsmanagement" ∷ "emailforwarding" ∷ "idprotection" ∷ []

module _ (js : Js) where
  unfoldable pub intent_to_whmcs_params : WriteScope → Fields → Option String → Mapping
  unfolding pick_fields copy_all map_billable_item_params map_client_create_params
      map_client_note_params map_client_update_params map_contact_add_params
      map_contact_update_params map_credit_add_params map_credit_apply_params
      map_credit_transfer_preview map_domain_id_protect_params map_domain_lock_params
      map_domain_nameservers_params map_domain_register_params map_domain_renew_params
      map_invoice_create_params map_invoice_payment_params map_order_accept_params
      map_order_create_params map_quote_create_params map_quote_update_params
      map_refund_record_params map_service_custom_fields_params map_service_domain_rename_params
      map_service_product_set_params map_service_suspend_params map_service_upgrade_params
      map_ticket_create_params map_ticket_merge_params map_ticket_note_params
      map_ticket_reply_params map_ticket_status_params copy_key
  intent_to_whmcs_params client_note_write params key = mapped (map_client_note_params params)
  intent_to_whmcs_params ticket_create params key = mapped (map_ticket_create_params params)
  intent_to_whmcs_params ticket_reply params key = mapped (map_ticket_reply_params params)
  intent_to_whmcs_params ticket_status params key = mapped (map_ticket_status_params params)
  intent_to_whmcs_params billing_invoice_create params key =
      mapped (map_invoice_create_params js params)
  intent_to_whmcs_params billing_payment_add params key =
      mapped (map_invoice_payment_params js params key)
  intent_to_whmcs_params billing_credit_add params key = mapped (map_credit_add_params js params)
  intent_to_whmcs_params billing_credit_transfer params key =
      mapped (map_credit_transfer_preview params)
  intent_to_whmcs_params billing_refund_record params key =
      mapped (map_refund_record_params js params key)
  intent_to_whmcs_params service_price_restore params key = refused price_restore_is_batch_shaped
  intent_to_whmcs_params service_domain_rename params key =
      mapped (map_service_domain_rename_params js params)
  intent_to_whmcs_params service_suspend params key = mapped (map_service_suspend_params js params)
  intent_to_whmcs_params service_unsuspend params key = mapped (copy_key "serviceid" params)
  intent_to_whmcs_params service_terminate params key = mapped (copy_key "serviceid" params)
  intent_to_whmcs_params domain_nameservers_update params key =
      mapped (map_domain_nameservers_params js params)
  intent_to_whmcs_params billing_payment_capture params key = mapped (copy_key "invoiceid" params)
  intent_to_whmcs_params billing_credit_apply params key = mapped (map_credit_apply_params params)
  intent_to_whmcs_params domain_register params key = mapped (map_domain_register_params js params)
  intent_to_whmcs_params domain_renew params key = mapped (map_domain_renew_params params)
  intent_to_whmcs_params order_accept params key = mapped (map_order_accept_params params)
  intent_to_whmcs_params order_create params key = map_order_create_params js params
  intent_to_whmcs_params client_create params key = mapped (map_client_create_params params)
  intent_to_whmcs_params client_update params key = mapped (map_client_update_params params)
  intent_to_whmcs_params service_change_package params key = mapped (copy_key "serviceid" params)
  intent_to_whmcs_params service_product_set params key =
      mapped (map_service_product_set_params js params)
  intent_to_whmcs_params service_customfields_update params key =
      map_service_custom_fields_params js params
  intent_to_whmcs_params service_upgrade params key = mapped (map_service_upgrade_params params)
  intent_to_whmcs_params domain_idprotect_toggle params key =
      mapped (map_domain_id_protect_params params)
  intent_to_whmcs_params domain_lock_toggle params key = mapped (map_domain_lock_params params)
  intent_to_whmcs_params client_contact_add params key = mapped (map_contact_add_params params)
  intent_to_whmcs_params client_contact_update params key =
      mapped (map_contact_update_params params)
  intent_to_whmcs_params billing_billable_item_add params key =
      mapped (map_billable_item_params params)
  intent_to_whmcs_params billing_quote_create params key =
      mapped (map_quote_create_params js params)
  intent_to_whmcs_params billing_quote_update params key =
      mapped (map_quote_update_params js params)
  intent_to_whmcs_params billing_quote_send params key = mapped (copy_key "quoteid" params)
  intent_to_whmcs_params billing_quote_accept params key = mapped (copy_key "quoteid" params)
  intent_to_whmcs_params ticket_note params key = mapped (map_ticket_note_params params)
  intent_to_whmcs_params ticket_merge params key = map_ticket_merge_params js params
  intent_to_whmcs_params service_transfer_owner params key = mapped (copy_all params)
  intent_to_whmcs_params billing_invoice_reassign params key = mapped (copy_all params)
  intent_to_whmcs_params order_cancel params key =
      mapped (pick_fields params ("orderid" ∷ "cancelsub" ∷ []))
  intent_to_whmcs_params order_pending params key = mapped (pick_fields params ("orderid" ∷ []))
  intent_to_whmcs_params billing_invoice_update params key =
      mapped (pick_fields params invoice_update_fields)
  intent_to_whmcs_params billing_billable_item_update params key =
      mapped (pick_fields params billable_item_update_fields)
  intent_to_whmcs_params domain_epp_request params key =
      mapped (pick_fields params ("domainid" ∷ []))
  intent_to_whmcs_params domain_record_update params key =
      mapped (pick_fields params domain_record_fields)
  intent_to_whmcs_params support_cancel_request_add params key =
      mapped (pick_fields params ("serviceid" ∷ "type" ∷ "reason" ∷ []))
  intent_to_whmcs_params client_close params key = mapped (pick_fields params ("clientid" ∷ []))
  intent_to_whmcs_params client_contact_delete params key =
      mapped (pick_fields params ("contactid" ∷ []))
