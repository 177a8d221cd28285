-- ===== src/Request/Classifier.antt =====
-- src/whmcs/request/classifier.ts. The regular expressions on WHMCS's message are a parameter.
use whmcs_mcp_server.Prelude.{
  ℕ, String, Bool, true, false, not, ◌||◌, Option, none, some, List, [], ◌∷◌, any, ◌==◌, str_eq,
  if◌then◌else◌,
}

abbrev pub retryable_status_codes : List ℕ
retryable_status_codes = 500 ∷ 502 ∷ 503 ∷ 504 ∷ 429 ∷ []

pub data ForbiddenKind : Type 0 where
  invalid_ip invalid_permissions waf_or_empty unknown : ForbiddenKind

-- `response.data`: a text, an object with or without a text `message`, or something else.
pub data Body : Type 0 where
  nothing other_data : Body
  text : String → Body
  message_object : Option String → Body

pub record AxiosError : Type 0 where
  -- The response's status and data, when there is a response.
  pub response : Option (ℕ × Body)
  pub code : String
  pub name : String

pub data Failure : Type 0 where
  transport_error : Option ℕ → Failure
  axios_error : AxiosError → Failure
  -- Any other thrown value, by the name of the error.
  other_error : String → Failure

pub record ClassifiedWhmcsError : Type 0 where
  pub status_code : Option ℕ
  pub retryable : Bool
  pub whmcs_message : Option String
  pub has_response_body : Bool
  pub cancelled : Bool
  pub forbidden_kind : Option ForbiddenKind

-- `/invalid\s+ip/i` and `/invalid\s+permissions/i`.
pub record Patterns : Type 0 where
  pub says_invalid_ip : String → Bool
  pub says_invalid_permissions : String → Bool

abbrev pub is_retryable_status : Option ℕ → Bool
is_retryable_status none = false
is_retryable_status (some status) = any (λ code. code == status) retryable_status_codes

abbrev if_any : String → Option String
if_any s = if str_eq s "" then none else some s

unfoldable pub extract_whmcs_message : Body → Option String
extract_whmcs_message (text s) = if_any s
extract_whmcs_message (message_object (some s)) = if_any s
extract_whmcs_message _ = none

abbrev pub has_body : Body → Bool
has_body nothing = false
has_body (text s) = not (str_eq s "")
has_body _ = true

abbrev pub body_of : Option (ℕ × Body) → Body
body_of none = nothing
body_of (some (status, body)) = body

abbrev pub status_of : Option (ℕ × Body) → Option ℕ
status_of none = none
status_of (some (status, body)) = some status

abbrev pub is_403 : Option ℕ → Bool
is_403 none = false
is_403 (some status) = status == 403

module _ (patterns : Patterns) where
  abbrev kind_of_message : Option String → ForbiddenKind
  kind_of_message none = unknown
  kind_of_message (some m) =
      if patterns.says_invalid_ip m
      then invalid_ip
      else if patterns.says_invalid_permissions m
      then invalid_permissions
      else unknown

  unfoldable pub classify_forbidden : Option String → Bool → ForbiddenKind
  classify_forbidden message has_response_body =
      if has_response_body then kind_of_message message else waf_or_empty

  unfoldable pub classify_whmcs_error : Failure → ClassifiedWhmcsError
  unfolding classify_forbidden extract_whmcs_message
  classify_whmcs_error (transport_error status) = record {
    status_code = status;
    retryable = is_retryable_status status;
    whmcs_message = none;
    has_response_body = false;
    cancelled = false;
    forbidden_kind = none;
  }
  classify_whmcs_error (axios_error e) =
      let status = status_of e.response in
      let body = body_of e.response in
      let message = extract_whmcs_message body in
      record {
        status_code = status;
        retryable =
            is_retryable_status status
            || str_eq e.code "ECONNRESET"
            || str_eq e.code "ETIMEDOUT"
            || str_eq e.code "ECONNABORTED";
        whmcs_message = message;
        has_response_body = has_body body;
        cancelled = str_eq e.code "ERR_CANCELED" || str_eq e.name "CanceledError";
        forbidden_kind =
            if is_403 status then some (classify_forbidden message (has_body body)) else none;
      }
  classify_whmcs_error (other_error name) = record {
    status_code = none;
    retryable = false;
    whmcs_message = none;
    has_response_body = false;
    cancelled = str_eq name "AbortError";
    forbidden_kind = none;
  }
