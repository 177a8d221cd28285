-- ===== src/Write/CreditTransfer/Texts.antt =====
-- src/write/creditTransfer.ts: the descriptions and notes of a transfer, by which its rows are
-- found again. The long notes are given by their parts; their fixed wording is shortened.
use whmcs_mcp_server.Prelude.{◌⊕◌, ℕ, ℤ, String, Option, none, some}
use whmcs_mcp_server.Write.CreditTransfer.Program.{Js}

unfoldable pub reversal_text : Option String → String
reversal_text none = ""
reversal_text (some id) = "; reverses " ⊕ id

-- What the texts of one transfer speak of.
pub record Subject : Type 0 where
  pub transfer_id : String
  pub source : ℕ
  pub destination : ℕ
  pub amount : ℤ
  pub currency : String
  pub reverses : Option String
  pub reason : String
  pub actor : String
  pub approval : String

module _ (js : Js) (s : Subject) where
  unfoldable pub tag : String
  tag = "[" ⊕ s.transfer_id ⊕ "] "

  unfoldable pub source_description : String
  unfolding tag reversal_text
  source_description =
      tag ⊕ "OUT client credit to Client #" ⊕ js.show s.destination ⊕ reversal_text s.reverses

  unfoldable pub destination_description : String
  unfolding tag reversal_text
  destination_description =
      tag ⊕ "IN client credit from Client #" ⊕ js.show s.source ⊕ reversal_text s.reverses

  unfoldable pub compensation_description : String
  unfolding tag
  compensation_description = tag ⊕ "automatic source compensation after destination failure"

  unfoldable pub money_text : String
  money_text = s.currency ⊕ " " ⊕ js.show_money s.amount

  unfoldable pub failed_out_activity : ℕ → ℕ → String
  unfolding tag money_text
  failed_out_activity debit compensation =
      tag
      ⊕ "client credit transfer to Client #"
      ⊕ js.show s.destination
      ⊕ " failed; source automatically compensated "
      ⊕ money_text
      ⊕ "; debit #"
      ⊕ js.show debit
      ⊕ "; compensation #"
      ⊕ js.show compensation

  unfoldable pub failed_in_activity : String
  unfolding tag money_text
  failed_in_activity =
      tag
      ⊕ "incoming client credit from Client #"
      ⊕ js.show s.source
      ⊕ " failed before posting; source automatically compensated "
      ⊕ money_text

  unfoldable pub out_activity : ℕ → ℕ → String
  unfolding tag money_text
  out_activity source_credit destination_credit =
      tag
      ⊕ "client credit OUT "
      ⊕ money_text
      ⊕ " to Client #"
      ⊕ js.show s.destination
      ⊕ "; "
      ⊕ s.approval
      ⊕ "; source credit #"
      ⊕ js.show source_credit
      ⊕ "; destination credit #"
      ⊕ js.show destination_credit

  unfoldable pub in_activity : ℕ → ℕ → String
  unfolding tag money_text
  in_activity source_credit destination_credit =
      tag
      ⊕ "client credit IN "
      ⊕ money_text
      ⊕ " from Client #"
      ⊕ js.show s.source
      ⊕ "; "
      ⊕ s.approval
      ⊕ "; source credit #"
      ⊕ js.show source_credit
      ⊕ "; destination credit #"
      ⊕ js.show destination_credit

  -- A client note: its head line, when it occurred, and the references that it cites.
  unfoldable pub note : String → String → ℕ → ℕ → ℕ → ℕ → String
  unfolding money_text
  note head occurred first second source_activity destination_activity =
      "[Credit Transfer "
      ⊕ s.transfer_id
      ⊕ "] "
      ⊕ head
      ⊕ " "
      ⊕ money_text
      ⊕ ". Occurred: "
      ⊕ occurred
      ⊕ " (WHMCS native). Actor: authenticated MCP consumer "
      ⊕ s.actor
      ⊕ ". Credit refs: #"
      ⊕ js.show first
      ⊕ ", #"
      ⊕ js.show second
      ⊕ "; activity refs: #"
      ⊕ js.show source_activity
      ⊕ ", #"
      ⊕ js.show destination_activity
      ⊕ ". Reason: "
      ⊕ s.reason
      ⊕ "."
