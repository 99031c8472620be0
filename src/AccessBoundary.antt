-- ===== src/AccessBoundary.antt =====
-- app/services/access_boundary.py. Logging is left out, and so are the details of an error.
pub mod Laws
use text.Mathlib.Text.{starts_with}
use codex_collaboration_coor.Common.{
  String, ◌<>◌, ◌==◌, ◌&&◌, Bool, true, false, not, Option, none, some, List, [], ◌∷◌, one_of,
  is_none, if◌then◌else◌,
}
use codex_collaboration_coor.Common.Text.{strip, lower, drop}
use codex_collaboration_coor.Exec.{
  Exec, Outcome, ok, err, pure, raise, lift, forbidden_error, unauthorized_error, ◌>>=◌,
}
use codex_collaboration_coor.Store.{World}
use codex_collaboration_coor.Store.Env.{Env}
use codex_collaboration_coor.Store.Records.Credentials.{active}
use codex_collaboration_coor.Authz.{ActorIdentity}
use codex_collaboration_coor.Credentials.{
  CredentialAuthMatch, MatchStatus, credential_is, principal_missing,
}
use codex_collaboration_coor.Credentials.Authenticate.{authenticate_secret}

pub data Surface : Type 0 where
  operator public : Surface

abbrev surface_text : Surface → String
surface_text operator = "operator"
surface_text public = "public"

-- `surface.capitalize()`
abbrev capitalized : Surface → String
capitalized operator = "Operator"
capitalized public = "Public"

-- The settings of the service; without a credential service no credential is looked up.
pub record Boundary : Type 0 where
  pub access_boundary_mode : String
  pub access_token : String
  pub has_credentials : Bool
  pub trusted_client_hosts : List String

-- What the service reads of a request: the host, the header of the token and `Authorization`.
pub record AccessRequest : Type 0 where
  pub client : Option String
  pub token_header : Option String
  pub authorization : Option String

unfoldable pub normalize_mode : String → String
normalize_mode mode =
    if one_of (lower (strip mode)) ("local" ∷ "trusted" ∷ "protected" ∷ [])
    then lower (strip mode)
    else "trusted"

unfoldable pub client_host : AccessRequest → String
client_host r = elim r.client [
  | none ↦ "-"
  | some host ↦ if strip host == "" then "-" else strip host
]

abbrev non_blank : String → Option String
non_blank s = if strip s == "" then none else some (strip s)

unfoldable pub bearer_token : Option String → Option String
bearer_token none = none
bearer_token (some authorization) =
    if authorization == ""
    then none
    else if starts_with (lower authorization) "bearer "
    then non_blank (drop 7 authorization)
    else non_blank authorization

abbrev token_or : Option String → Option String → Option String
token_or none authorization = bearer_token authorization
token_or (some token) authorization =
    if strip token == "" then bearer_token authorization else some (strip token)

unfoldable pub extract_token : AccessRequest → Option String
extract_token r = token_or r.token_header r.authorization

unfoldable pub token_matches : Boundary → String → Bool
token_matches b token = not (b.access_token == "") && token == b.access_token

-- The role and the scope that a surface asks of an active credential.
unfoldable pub check_surface : Surface → ActorIdentity → Outcome (Option ActorIdentity)
check_surface operator identity =
    if not (one_of identity.actor_role ("operator" ∷ "admin" ∷ []))
    then err (forbidden_error "Operator access token is not valid for this role")
    else if not (one_of "operator_write" identity.credential_scopes)
    then err (forbidden_error "Operator access token does not include the required scope")
    else ok (some identity)
check_surface public identity =
    if not (one_of "public_read" identity.credential_scopes)
    then err (forbidden_error "Public access token does not include the required scope")
    else ok (some identity)

unfoldable pub check_match :
    Surface → MatchStatus → Option ActorIdentity → Outcome (Option ActorIdentity)
check_match surface (credential_is active) (some identity) = check_surface surface identity
check_match surface principal_missing identity =
    err (forbidden_error (capitalized surface <> " credential principal is missing"))
check_match surface status identity =
    err (forbidden_error (capitalized surface <> " credential is not active"))

unfoldable pub decide_match : Surface → Option CredentialAuthMatch → Outcome (Option ActorIdentity)
decide_match surface none =
    err (forbidden_error (capitalized surface <> " access token is not valid"))
decide_match surface (some m) = check_match surface m.status m.actor_identity

module _ ⦃env : Env⦄ (b : Boundary) where
  unfoldable pub authenticate_credential :
      String → Surface → String → Exec World (Option CredentialAuthMatch)
  authenticate_credential token surface host =
      if b.has_credentials
      then authenticate_secret b.access_boundary_mode (some host) token (surface_text surface)
      else pure none

  unfoldable pub with_token :
      AccessRequest → Surface → Option String → Exec World (Option ActorIdentity)
  with_token r surface none =
      raise (unauthorized_error (capitalized surface <> " access requires a valid access token"))
  with_token r surface (some token) = if token_matches b token then pure none else (do
    found ← authenticate_credential token surface (client_host r)
    lift (decide_match surface found))

  -- The identity that is put into the state of an admitted request, where it has one.
  unfoldable pub authorize : AccessRequest → Surface → Exec World (Option ActorIdentity)
  authorize r surface =
      if b.access_boundary_mode == "local"
      then pure none
      else if b.access_boundary_mode == "trusted"
          && one_of (client_host r) b.trusted_client_hosts
          && is_none (extract_token r)
      then pure none
      else with_token r surface (extract_token r)
