-- ===== src/Write/Mapping/Strict/Scopes.antt =====
-- src/write/paramMapping.ts: no mapper leaks a field.
use whmcs_mcp_server.Prelude.{
  ◌≡◌, ℕ, List, none, some, String, refl, Option, inl, inr, [], ◌∷◌, arith, eq_iff,
}
use whmcs_mcp_server.Json.{Json, property, Fields, end, field}
use whmcs_mcp_server.Write.Scopes.{
  WriteScope, client_note_write, ticket_create, ticket_reply, ticket_status, billing_invoice_create,
  billing_payment_add, billing_credit_add, billing_credit_transfer, billing_refund_record,
  service_price_restore, service_domain_rename, service_suspend, service_unsuspend,
  service_terminate, domain_nameservers_update, billing_payment_capture, billing_credit_apply,
  domain_register, domain_renew, order_accept, order_create, client_create, client_update,
  service_change_package, service_product_set, service_customfields_update, service_upgrade,
  domain_idprotect_toggle, domain_lock_toggle, client_contact_add, client_contact_update,
  billing_billable_item_add, billing_quote_create, billing_quote_update, billing_quote_send,
  billing_quote_accept, ticket_note, ticket_merge, service_transfer_owner, billing_invoice_reassign,
  order_cancel, order_pending, billing_invoice_update, billing_billable_item_update,
  domain_epp_request, domain_record_update, support_cancel_request_add, client_close,
  client_contact_delete,
}
use whmcs_mcp_server.Write.Mapping.Values.{Js, array_or_empty, array_or_empty}
use whmcs_mcp_server.Write.Mapping.Dispatch.{
  invoice_update_fields, billable_item_update_fields, domain_record_fields, intent_to_whmcs_params,
  copy_all,
}
use whmcs_mcp_server.Write.Mapping.Strict.Keys.{
  IsIn, HasKeys-if, HasKeys-weaken, HasKeys, HasKeys-set, HasKeys-set_present, HasKeys-pick_into,
  HasKeys-pick_fields, HasKeys-set_hosts, HasKeys-copy_hosts, HasKeys-flatten_items,
}
use whmcs_mcp_server.Write.Mapping.Strict.Table.{
  HasUnprintable, MaySend, IsStrict, names, promised_keys,
}
use whmcs_mcp_server.Write.Mapping.Billing.{
  is_credit, invoice_create_field_allowlist, billable_item_field_allowlist,
  quote_create_field_allowlist, quote_update_field_allowlist, map_invoice_create_params,
  map_invoice_payment_params, map_credit_add_params, map_refund_record_params,
  map_quote_create_params, map_quote_update_params, map_billable_item_params, copy_key,
  map_credit_apply_params,
}
use whmcs_mcp_server.Write.Mapping.Clients.{
  ticket_create_field_allowlist, ticket_reply_field_allowlist, ticket_status_field_allowlist,
  ticket_note_field_allowlist, client_field_allowlist, contact_field_allowlist,
  map_client_note_params, map_ticket_create_params, map_ticket_reply_params,
  map_ticket_status_params, map_ticket_note_params, map_ticket_merge_params,
  map_client_create_params, map_client_update_params, map_contact_add_params,
  map_contact_update_params,
}
use whmcs_mcp_server.Write.Mapping.Domains.{
  host_keys, map_domain_nameservers_params, map_domain_register_params, map_domain_renew_params,
  map_domain_id_protect_params, map_domain_lock_params,
}
use whmcs_mcp_server.Write.Mapping.Services.{
  serialize_entries, set_entries, record_or_empty, encode_body, with_text,
  encode_service_custom_fields, OrderRow, order_of_row, order_of, upgrade_field_allowlist,
  map_service_domain_rename_params, map_service_suspend_params, map_service_product_set_params,
  map_service_custom_fields_params, map_service_upgrade_params, map_order_accept_params,
  map_order_create_params,
}

-- An object that is copied whole has the names of its fields.
HasKeys-copy_all : (params : Fields) → HasKeys (IsIn (names params)) (copy_all params)
unfolding copy_all
HasKeys-copy_all end = tt
HasKeys-copy_all (field k v fs) = (
  ground (arith, eq_iff k k),
  HasKeys-weaken (IsIn (names fs)) (IsIn (k ∷ names fs)) (copy_all fs) (λ j h. ground arith)
      (HasKeys-copy_all fs),
)

module _ (js : Js) where
  order_of_row-IsStrict :
      (params : Fields) (row : OrderRow)
      → IsStrict js params order_create (order_of_row js params row)
  unfolding order_of_row
  order_of_row-IsStrict params row = ground (arith)

  order_of-IsStrict :
      (params : Fields) (domains : Option Json)
      → IsStrict js params order_create (order_of js params domains)
  unfolding order_of
  order_of-IsStrict params domains = ground (arith, order_of_row-IsStrict params)

  serialize_entries-HasUnprintable :
      (es : List (String × Json)) → serialize_entries js es ≡ none → HasUnprintable js es
  unfolding serialize_entries
  serialize_entries-HasUnprintable [] h = absurd (ground arith)
  serialize_entries-HasUnprintable ((k, v) ∷ es) h =
      let rest = serialize_entries-HasUnprintable es in ground (arith, rest)

  with_text-custom_fields :
      (params : Fields) (o : Option String)
      → serialize_entries js (set_entries (record_or_empty (property "customfields" params))) ≡ o
      → (count : ℕ)
      → IsStrict js params service_customfields_update
          (with_text "serviceid" "customfields" params (encode_body js count o))
  with_text-custom_fields params none h count = (refl, serialize_entries-HasUnprintable _ h)
  with_text-custom_fields params (some s) h count = (refl, (refl, tt))

  with_text-merge :
      (params : Fields) (o : Option String)
      → js.join (array_or_empty (property "mergeticketids" params)) ≡ o
      → IsStrict js params ticket_merge (with_text "ticketid" "mergeticketids" params o)
  with_text-merge params none h = (refl, h)
  with_text-merge params (some s) h = (refl, (refl, tt))

  -- For every scope, every mapping context and all parameters of an intent, whatever keys they
  -- hold: the mapper emits only keys that its contract promises for the scope. It throws only for a
  -- price restore, for the creation of an order, for custom fields of which a value cannot be
  -- converted to a text, and for a merge of tickets whose ids cannot be joined to a text.
  pub intent_to_whmcs_params-IsStrict :
      (scope : WriteScope) (params : Fields) (key : Option String)
      → IsStrict js params scope (intent_to_whmcs_params js scope params key)
  unfolding intent_to_whmcs_params map_invoice_create_params map_invoice_payment_params
      map_credit_add_params map_refund_record_params map_quote_create_params map_quote_update_params
      map_billable_item_params copy_key map_credit_apply_params map_client_note_params
      map_ticket_create_params map_ticket_reply_params map_ticket_status_params
      map_ticket_note_params map_ticket_merge_params map_client_create_params
      map_client_update_params map_contact_add_params map_contact_update_params
      map_domain_nameservers_params map_domain_register_params map_domain_renew_params
      map_domain_id_protect_params map_domain_lock_params map_service_domain_rename_params
      map_service_suspend_params map_service_product_set_params map_service_custom_fields_params
      map_service_upgrade_params map_order_accept_params map_order_create_params
      encode_service_custom_fields
  intent_to_whmcs_params-IsStrict client_note_write params key =
      HasKeys-set_present (IsIn (promised_keys client_note_write)) "sticky" _
        (("userid", property "clientid" params) ∷ ("notes", property "note" params) ∷ []) refl
        (refl, (refl, tt))
  intent_to_whmcs_params-IsStrict ticket_create params key =
      HasKeys-pick_fields (promised_keys ticket_create) params ticket_create_field_allowlist refl
  intent_to_whmcs_params-IsStrict ticket_reply params key =
      HasKeys-pick_fields (promised_keys ticket_reply) params ticket_reply_field_allowlist refl
  intent_to_whmcs_params-IsStrict ticket_status params key =
      HasKeys-pick_fields (promised_keys ticket_status) params ticket_status_field_allowlist refl
  intent_to_whmcs_params-IsStrict billing_invoice_create params key =
      let P = MaySend js params billing_invoice_create in
      HasKeys-flatten_items P js (λ k h. inr h) 1 (array_or_empty (property "items" params)) _
        (HasKeys-weaken (IsIn (promised_keys billing_invoice_create)) P _ (λ k h. inl h)
          (HasKeys-pick_fields (promised_keys billing_invoice_create) params
            invoice_create_field_allowlist refl))
  intent_to_whmcs_params-IsStrict billing_payment_add params key =
      HasKeys-set_present (IsIn (promised_keys billing_payment_add)) "gateway" _ _ refl (
        HasKeys-set (IsIn (promised_keys billing_payment_add)) "transid" _ _ refl (
          HasKeys-pick_fields (promised_keys billing_payment_add) params
            ("invoiceid" ∷ "amount" ∷ "date" ∷ []) refl))
  intent_to_whmcs_params-IsStrict billing_credit_add params key = (refl, (refl, (refl, tt)))
  intent_to_whmcs_params-IsStrict billing_credit_transfer params key =
      (refl, (refl, (refl, (refl, (refl, tt)))))
  intent_to_whmcs_params-IsStrict billing_refund_record params key =
      let table = promised_keys billing_refund_record in
      HasKeys-if (IsIn table) (is_credit js (property "refund_type" params)) _ _
        (HasKeys-set (IsIn table) "credit" _ _ refl (refl, (refl, (refl, (refl, (refl, tt))))))
        (refl, (refl, (refl, (refl, (refl, tt)))))
  intent_to_whmcs_params-IsStrict service_price_restore params key = refl
  intent_to_whmcs_params-IsStrict service_domain_rename params key = (refl, (refl, tt))
  intent_to_whmcs_params-IsStrict service_suspend params key =
      HasKeys-set_present (IsIn (promised_keys service_suspend)) "suspendreason" _
        (("serviceid", property "serviceid" params) ∷ []) refl (refl, tt)
  intent_to_whmcs_params-IsStrict service_unsuspend params key = (refl, tt)
  intent_to_whmcs_params-IsStrict service_terminate params key = (refl, tt)
  intent_to_whmcs_params-IsStrict domain_nameservers_update params key =
      let table = promised_keys domain_nameservers_update in
      HasKeys-set_hosts table js (host_keys js) (array_or_empty (property "nameservers" params))
        (("domainid", property "domainid" params) ∷ []) refl (refl, tt)
  intent_to_whmcs_params-IsStrict billing_payment_capture params key = (refl, tt)
  intent_to_whmcs_params-IsStrict billing_credit_apply params key = (refl, (refl, tt))
  intent_to_whmcs_params-IsStrict domain_register params key =
      let table = promised_keys domain_register in
      HasKeys-copy_hosts table js params (host_keys js)
        (("domainid", property "domainid" params) ∷ []) refl (refl, tt)
  intent_to_whmcs_params-IsStrict domain_renew params key = (refl, (refl, tt))
  intent_to_whmcs_params-IsStrict order_accept params key = (refl, (refl, (refl, tt)))
  intent_to_whmcs_params-IsStrict order_create params key =
      order_of-IsStrict params (property "domains" params)
  intent_to_whmcs_params-IsStrict client_create params key =
      HasKeys-pick_into (promised_keys client_create) params client_field_allowlist [] refl tt
  intent_to_whmcs_params-IsStrict client_update params key =
      let table = promised_keys client_update in
      HasKeys-pick_into table params client_field_allowlist
        (("clientid", property "clientid" params) ∷ []) refl (refl, tt)
  intent_to_whmcs_params-IsStrict service_change_package params key = (refl, tt)
  intent_to_whmcs_params-IsStrict service_product_set params key =
      HasKeys-set_present (IsIn (promised_keys service_product_set)) "billingcycle" _
        (("serviceid", property "serviceid" params) ∷ ("pid", property "pid" params) ∷ []) refl
        (refl, (refl, tt))
  intent_to_whmcs_params-IsStrict service_customfields_update params key =
      with_text-custom_fields params _ refl _
  intent_to_whmcs_params-IsStrict service_upgrade params key =
      HasKeys-pick_fields (promised_keys service_upgrade) params upgrade_field_allowlist refl
  intent_to_whmcs_params-IsStrict domain_idprotect_toggle params key = (refl, (refl, tt))
  intent_to_whmcs_params-IsStrict domain_lock_toggle params key = (refl, (refl, tt))
  intent_to_whmcs_params-IsStrict client_contact_add params key =
      let table = promised_keys client_contact_add in
      HasKeys-pick_into table params contact_field_allowlist
        (("clientid", property "clientid" params) ∷ []) refl (refl, tt)
  intent_to_whmcs_params-IsStrict client_contact_update params key =
      let table = promised_keys client_contact_update in
      HasKeys-pick_into table params contact_field_allowlist
        (("contactid", property "contactid" params) ∷ []) refl (refl, tt)
  intent_to_whmcs_params-IsStrict billing_billable_item_add params key =
      HasKeys-pick_fields (promised_keys billing_billable_item_add) params
        billable_item_field_allowlist refl
  intent_to_whmcs_params-IsStrict billing_quote_create params key =
      HasKeys-set (IsIn (promised_keys billing_quote_create)) "lineitems" _ _ refl (
        HasKeys-pick_fields (promised_keys billing_quote_create) params
          (quote_create_field_allowlist js) refl)
  intent_to_whmcs_params-IsStrict billing_quote_update params key =
      HasKeys-set_present (IsIn (promised_keys billing_quote_update)) "lineitems" _ _ refl (
        HasKeys-pick_fields (promised_keys billing_quote_update) params
          (quote_update_field_allowlist js) refl)
  intent_to_whmcs_params-IsStrict billing_quote_send params key = (refl, tt)
  intent_to_whmcs_params-IsStrict billing_quote_accept params key = (refl, tt)
  intent_to_whmcs_params-IsStrict ticket_note params key =
      HasKeys-pick_fields (promised_keys ticket_note) params ticket_note_field_allowlist refl
  intent_to_whmcs_params-IsStrict ticket_merge params key = with_text-merge params _ refl
  intent_to_whmcs_params-IsStrict service_transfer_owner params key = HasKeys-copy_all params
  intent_to_whmcs_params-IsStrict billing_invoice_reassign params key = HasKeys-copy_all params
  intent_to_whmcs_params-IsStrict order_cancel params key =
      HasKeys-pick_fields (promised_keys order_cancel) params ("orderid" ∷ "cancelsub" ∷ []) refl
  intent_to_whmcs_params-IsStrict order_pending params key =
      HasKeys-pick_fields (promised_keys order_pending) params ("orderid" ∷ []) refl
  intent_to_whmcs_params-IsStrict billing_invoice_update params key =
      HasKeys-pick_fields (promised_keys billing_invoice_update) params invoice_update_fields refl
  intent_to_whmcs_params-IsStrict billing_billable_item_update params key =
      HasKeys-pick_fields (promised_keys billing_billable_item_update) params
        billable_item_update_fields refl
  intent_to_whmcs_params-IsStrict domain_epp_request params key =
      HasKeys-pick_fields (promised_keys domain_epp_request) params ("domainid" ∷ []) refl
  intent_to_whmcs_params-IsStrict domain_record_update params key =
      HasKeys-pick_fields (promised_keys domain_record_update) params domain_record_fields refl
  intent_to_whmcs_params-IsStrict support_cancel_request_add params key =
      HasKeys-pick_fields (promised_keys support_cancel_request_add) params
        ("serviceid" ∷ "type" ∷ "reason" ∷ []) refl
  intent_to_whmcs_params-IsStrict client_close params key =
      HasKeys-pick_fields (promised_keys client_close) params ("clientid" ∷ []) refl
  intent_to_whmcs_params-IsStrict client_contact_delete params key =
      HasKeys-pick_fields (promised_keys client_contact_delete) params ("contactid" ∷ []) refl
