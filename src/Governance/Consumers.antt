-- ===== src/Governance/Consumers.antt =====
-- src/governance/consumers.ts: the consumer behind a token, and its write scopes. The hash of a
-- token is a parameter, as is the reading of the transport's prefix: `bound_id` is the rest of a
-- token that starts with it. The registry is the list of profiles that was loaded.
use whmcs_mcp_server.Prelude.{
  String, Bool, true, false, not, ◌&&◌, Option, none, some, List, [], ◌∷◌, str_eq, includes,
  if◌then◌else◌,
}

-- A text of the registry file stands for a capability, a contract or an environment.
pub record ConsumerProfile : Type 0 where
  pub id : String
  pub write_capability : String
  pub default_contract : String
  pub env_restrictions : List String
  pub anonymous : Bool
  pub token_sha256 : Option String
  pub allowed_write_scopes : Option (List String)

pub data ConsumerDenyReason : Type 0 where
  no_token unknown_token env_forbidden anonymous_disabled : ConsumerDenyReason

pub data ConsumerResolution : Type 0 where
  known : ConsumerProfile → ConsumerResolution
  unknown : ConsumerDenyReason → ConsumerResolution

pub data WriteScopeAssertion : Type 0 where
  granted : WriteScopeAssertion
  scope_not_allowed write_capability_false : WriteScopeAssertion

abbrev or_no_scopes : Option (List String) → List String
or_no_scopes none = []
or_no_scopes (some scopes) = scopes

unfoldable pub consumer_write_scopes : ConsumerProfile → List String
consumer_write_scopes profile = or_no_scopes profile.allowed_write_scopes

unfoldable pub consumer_can_draft : ConsumerProfile → Bool
consumer_can_draft profile =
    not (str_eq profile.write_capability "false")
    && not (str_eq profile.write_capability "disabled")

unfoldable pub assert_write_scope_allowed : ConsumerProfile → String → WriteScopeAssertion
unfolding consumer_write_scopes consumer_can_draft
assert_write_scope_allowed profile scope =
    if not (consumer_can_draft profile)
    then write_capability_false
    else if not (includes (consumer_write_scopes profile) scope)
    then scope_not_allowed
    else granted

abbrev pub is_loaded : ConsumerProfile → Bool
is_loaded p = elim p.token_sha256 [ none ↦ false | some hash ↦ true ]

abbrev pub has_hash : String → ConsumerProfile → Bool
has_hash hash p = elim p.token_sha256 [ none ↦ false | some h ↦ str_eq h hash ]

abbrev pub find_profile : (ConsumerProfile → Bool) → List ConsumerProfile → Option ConsumerProfile
find_profile test [] = none
find_profile test (p ∷ ps) = if test p then some p else find_profile test ps

abbrev pub anon_pinned_contract : String
anon_pinned_contract = "llm_safe_summary"

unfoldable pub is_usable_anon_profile : ConsumerProfile → Bool
is_usable_anon_profile p = p.anonymous && str_eq p.default_contract anon_pinned_contract

abbrev is_empty : List String → Bool
is_empty [] = true
is_empty (x ∷ xs) = false

unfoldable pub env_forbidden_for : ConsumerProfile → String → Bool
env_forbidden_for profile env =
    not (is_empty profile.env_restrictions) && not (includes profile.env_restrictions env)

-- `tokenSha256` is stripped from the profile that a caller sees.
abbrev pub publish : ConsumerProfile → ConsumerProfile
publish p = record p { token_sha256 = none }

unfoldable pub resolve_match : Option ConsumerProfile → String → ConsumerResolution
unfolding env_forbidden_for
resolve_match none env = unknown unknown_token
resolve_match (some p) env =
    if env_forbidden_for p env then unknown env_forbidden else known (publish p)

-- The decision on a call without a token that is known.
unfoldable pub resolve_anonymous :
    ConsumerDenyReason → Option ConsumerProfile → String → Bool → ConsumerResolution
resolve_anonymous base none env allow_anon = unknown base
resolve_anonymous base (some anon) env allow_anon =
    if not allow_anon
    then unknown base
    else if str_eq env "production"
    then unknown anonymous_disabled
    else known anon

module _ (hash_token : String → String) (transport_binding_enabled : Bool)
    (bound_id : String → Option String) where
  abbrev anonymous_of :
      ConsumerDenyReason → String → List ConsumerProfile → Bool → ConsumerResolution
  unfolding resolve_anonymous is_usable_anon_profile
  anonymous_of base env registry allow_anon =
      resolve_anonymous base (find_profile is_usable_anon_profile registry) env allow_anon

  -- A token that no profile has falls through to the anonymous profile.
  unfoldable pub resolve_token :
      Option ConsumerProfile → String → List ConsumerProfile → Bool → ConsumerResolution
  unfolding resolve_match anonymous_of
  resolve_token (some p) env registry allow_anon = resolve_match (some p) env
  resolve_token none env registry allow_anon = anonymous_of unknown_token env registry allow_anon

  unfoldable pub resolve_bound :
      Option String → String → String → List ConsumerProfile → Bool → ConsumerResolution
  unfolding resolve_match resolve_token
  resolve_bound (some id) token env registry allow_anon =
      resolve_match (find_profile (λ p. is_loaded p && str_eq p.id id) registry) env
  resolve_bound none token env registry allow_anon =
      resolve_token (find_profile (has_hash (hash_token token)) registry) env registry allow_anon

  unfoldable pub resolve_consumer :
      Option String → String → List ConsumerProfile → Bool → ConsumerResolution
  unfolding resolve_bound anonymous_of
  resolve_consumer none env registry allow_anon = anonymous_of no_token env registry allow_anon
  resolve_consumer (some token) env registry allow_anon =
      if str_eq token ""
      then anonymous_of no_token env registry allow_anon
      else resolve_bound (if transport_binding_enabled then bound_id token else none) token env
          registry allow_anon
