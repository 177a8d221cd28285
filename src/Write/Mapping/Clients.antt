-- ===== src/Write/Mapping/Clients.antt =====
-- src/write/paramMapping.ts: the mappers of the client, contact and ticket scopes.
use whmcs_mcp_server.Prelude.{String, List, [], ◌∷◌}
use whmcs_mcp_server.Json.{Fields, property}
use whmcs_mcp_server.Write.Mapping.Values.{
  Js, Output, set_present, pick_into, pick_fields, array_or_empty,
}
use whmcs_mcp_server.Write.Mapping.Services.{Mapping, with_text}

unfoldable pub map_client_note_params : Fields → Output
map_client_note_params params =
    set_present "sticky" (property "sticky" params)
      (("userid", property "clientid" params) ∷ ("notes", property "note" params) ∷ [])

abbrev pub ticket_create_field_allowlist : List String
ticket_create_field_allowlist =
    "deptid" ∷ "subject" ∷ "message" ∷ "clientid" ∷ "name" ∷ "email" ∷ "priority" ∷ "serviceid" ∷ []

unfoldable pub map_ticket_create_params : Fields → Output
unfolding pick_fields
map_ticket_create_params params = pick_fields params ticket_create_field_allowlist

abbrev pub ticket_reply_field_allowlist : List String
ticket_reply_field_allowlist = "ticketid" ∷ "message" ∷ "clientid" ∷ "name" ∷ "email" ∷ []

unfoldable pub map_ticket_reply_params : Fields → Output
unfolding pick_fields
map_ticket_reply_params params = pick_fields params ticket_reply_field_allowlist

abbrev pub ticket_status_field_allowlist : List String
ticket_status_field_allowlist = "ticketid" ∷ "status" ∷ []

unfoldable pub map_ticket_status_params : Fields → Output
unfolding pick_fields
map_ticket_status_params params = pick_fields params ticket_status_field_allowlist

abbrev pub ticket_note_field_allowlist : List String
ticket_note_field_allowlist = "ticketid" ∷ "message" ∷ []

unfoldable pub map_ticket_note_params : Fields → Output
unfolding pick_fields
map_ticket_note_params params = pick_fields params ticket_note_field_allowlist

unfoldable pub map_ticket_merge_params : Js → Fields → Mapping
map_ticket_merge_params js params =
    with_text "ticketid" "mergeticketids" params
      (js.join (array_or_empty (property "mergeticketids" params)))

abbrev pub client_field_allowlist : List String
client_field_allowlist =
    "firstname" ∷ "lastname" ∷ "email" ∷ "companyname" ∷ "address1" ∷ "address2" ∷ "city" ∷ "state"
    ∷ "postcode" ∷ "country" ∷ "phonenumber" ∷ "password2" ∷ "currency" ∷ "clientgroup" ∷ "notes"
    ∷ "customfields" ∷ []

unfoldable pub map_client_create_params : Fields → Output
unfolding pick_into
map_client_create_params params = pick_into params client_field_allowlist []

unfoldable pub map_client_update_params : Fields → Output
unfolding pick_into
map_client_update_params params =
    pick_into params client_field_allowlist (("clientid", property "clientid" params) ∷ [])

abbrev pub contact_field_allowlist : List String
contact_field_allowlist =
    "firstname" ∷ "lastname" ∷ "email" ∷ "companyname" ∷ "address1" ∷ "address2" ∷ "city" ∷ "state"
    ∷ "postcode" ∷ "country" ∷ "phonenumber" ∷ []

unfoldable pub map_contact_add_params : Fields → Output
unfolding pick_into
map_contact_add_params params =
    pick_into params contact_field_allowlist (("clientid", property "clientid" params) ∷ [])

unfoldable pub map_contact_update_params : Fields → Output
unfolding pick_into
map_contact_update_params params =
    pick_into params contact_field_allowlist (("contactid", property "contactid" params) ∷ [])
