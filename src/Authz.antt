-- ===== src/Authz.antt =====
-- app/services/authz_service.py
pub mod Laws
use codex_collaboration_coor.Common.{
  String, ◌<>◌, ◌==◌, ◌&&◌, ◌||◌, Bool, true, false, not, Option, none, some, List, [], ◌∷◌, one_of,
  is_none, if◌then◌else◌,
}
use codex_collaboration_coor.Common.Text.{strip, lower}
use codex_collaboration_coor.Common.Json.{Json, str, arr, Items, nil, cons}
use codex_collaboration_coor.Exec.{
  Exec, Outcome, ok, err, pure, raise, forbidden_error, unauthorized_error, ◌>>=◌,
}
use codex_collaboration_coor.Store.Table.Rows.{order_by, text_before}
use codex_collaboration_coor.Store.Env.{Env}

pub record ActorIdentity : Type 0 where
  pub principal_id : Option String
  pub credential_id : Option String
  pub actor_id : String
  pub actor_role : String
  pub actor_type : String
  pub display_label : Option String
  pub source : String
  pub auth_mode : String
  pub credential_scopes : List String
  pub credential_status : Option String
  pub client_host : Option String

-- What the service reads and writes of a request: `request.client.host`, the four headers that the
-- configuration names, and `request.state.actor_identity`, with the fields copied from it.
pub record Request : Type 0 where
  pub client : Option String
  pub actor_id_header : Option String
  pub actor_role_header : Option String
  pub actor_type_header : Option String
  pub actor_label_header : Option String
  pub actor_identity : Option ActorIdentity

abbrev pub valid_roles : List String
valid_roles = "operator" ∷ "reviewer" ∷ "integration_client" ∷ "admin" ∷ []

unfoldable pub has_scope : List String → String → Bool
has_scope credential_scopes required_scope =
    if required_scope == "public_write"
    then one_of "public_write" credential_scopes || one_of "operator_write" credential_scopes
    else one_of required_scope credential_scopes

abbrev json_texts : List String → Items
json_texts [] = nil
json_texts (s ∷ ss) = cons (str s) (json_texts ss)

abbrev pub is_empty : List String → Bool
is_empty [] = true
is_empty (_ ∷ _) = false

-- `stripped or None`
abbrev stripped : Option String → Option String
stripped none = none
stripped (some s) = if strip s == "" then none else some (strip s)

abbrev text_or_empty : Option String → String
text_or_empty none = ""
text_or_empty (some s) = s

abbrev default_type : String → String
default_type role = if role == "integration_client" then "service" else "human"

abbrev valid_type : String → String → String
valid_type given role = if one_of given ("human" ∷ "service" ∷ []) then given else default_type role

module _ ⦃env : Env⦄ where
  -- The three checks, by the scope and the roles that they ask for.
  unfoldable pub require_action : String → List String → ActorIdentity → String → Outcome Bool
  require_action required_scope allowed_roles identity action =
      if not (is_empty identity.credential_scopes)
        && not (has_scope identity.credential_scopes required_scope)
      then err (
          forbidden_error (
            "Credential scopes "
            <> env.repr (
                arr (
                  json_texts (order_by (text_before (λ s. s) (λ s. s)) identity.credential_scopes)))
            <> " cannot perform "
            <> action))
      else if not (one_of identity.actor_role allowed_roles)
      then err
          (forbidden_error ("Actor role " <> identity.actor_role <> " cannot perform " <> action))
      else ok true

  unfoldable pub require_operator_action : ActorIdentity → String → Outcome Bool
  require_operator_action = require_action "operator_write" ("operator" ∷ "admin" ∷ [])

  unfoldable pub require_approval_action : ActorIdentity → String → Outcome Bool
  require_approval_action = require_action "operator_write" ("operator" ∷ "reviewer" ∷ "admin" ∷ [])

  unfoldable pub require_public_write : ActorIdentity → String → Outcome Bool
  require_public_write =
      require_action "public_write" ("integration_client" ∷ "operator" ∷ "admin" ∷ [])

-- The identity is kept in the state of the request.
unfoldable pub remember : ActorIdentity → Exec Request ActorIdentity
remember identity r = (ok identity, record r { actor_identity = some identity })

unfoldable pub bootstrap_identity : String → String → String → Request → ActorIdentity
bootstrap_identity auth_mode bootstrap_role bootstrap_label r = record {
  principal_id = none;
  credential_id = none;
  actor_id = bootstrap_role <> "_bootstrap";
  actor_role = bootstrap_role;
  actor_type = default_type bootstrap_role;
  display_label = some bootstrap_label;
  source = "bootstrap";
  auth_mode = auth_mode;
  credential_scopes = [];
  credential_status = none;
  client_host = stripped r.client;
}

unfoldable pub header_identity : String → String → String → Request → ActorIdentity
header_identity auth_mode actor_id normalized_role r = record {
  principal_id = none;
  credential_id = none;
  actor_id = actor_id;
  actor_role = normalized_role;
  actor_type =
      valid_type (lower (strip (text_or_empty (stripped r.actor_type_header)))) normalized_role;
  display_label = stripped r.actor_label_header;
  source = "headers";
  auth_mode = auth_mode;
  credential_scopes = [];
  credential_status = none;
  client_host = stripped r.client;
}

unfoldable pub with_role : String → String → String → Request → Exec Request ActorIdentity
with_role auth_mode actor_id normalized_role r =
    if not (one_of normalized_role valid_roles)
    then raise (forbidden_error ("Actor role " <> normalized_role <> " is not supported"))
    else remember (header_identity auth_mode actor_id normalized_role r)

unfoldable pub from_headers :
    String → Option String → Option String → Request → Exec Request ActorIdentity
from_headers auth_mode (some actor_id) (some actor_role) r =
    with_role auth_mode actor_id (lower (strip actor_role)) r
from_headers auth_mode _ _ r = raise (unauthorized_error "Actor identity headers are incomplete")

abbrev no_headers : Request → Bool
no_headers r =
    is_none (stripped r.actor_id_header)
    && is_none (stripped r.actor_role_header)
    && is_none (stripped r.actor_type_header)
    && is_none (stripped r.actor_label_header)

unfoldable pub fresh_identity : String → String → String → Request → Exec Request ActorIdentity
fresh_identity auth_mode bootstrap_role bootstrap_label r =
    if no_headers r
    then (if one_of auth_mode ("local" ∷ "trusted" ∷ [])
        then remember (bootstrap_identity auth_mode bootstrap_role bootstrap_label r)
        else raise (unauthorized_error "Actor identity is required for protected writes"))
    else from_headers auth_mode (stripped r.actor_id_header) (stripped r.actor_role_header) r

abbrev known_or_fresh :
    Option ActorIdentity → Exec Request ActorIdentity → Exec Request ActorIdentity
known_or_fresh none fresh = fresh
known_or_fresh (some identity) fresh = pure identity

unfoldable pub resolve_identity : String → String → String → Exec Request ActorIdentity
resolve_identity auth_mode bootstrap_role bootstrap_label r =
    known_or_fresh r.actor_identity (fresh_identity auth_mode bootstrap_role bootstrap_label r) r
