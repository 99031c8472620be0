-- ===== src/Tests/Access.antt =====
-- An operator's credential at the boundary.
use codex_collaboration_coor.Common.{true, none, some, [], ◌∷◌, ◌≡◌, refl, one_of}
use codex_collaboration_coor.Common.Json.{str, arr, nil, cons}
use codex_collaboration_coor.Exec.{ok}
use codex_collaboration_coor.Store.{World, empty_world}
use codex_collaboration_coor.Store.Env.{Env, past_due}
use codex_collaboration_coor.Store.Records.Credentials.{active}
use codex_collaboration_coor.Store.Repositories.Credentials.{get_by_secret_hash}
use codex_collaboration_coor.Authz.{
  ActorIdentity, require_operator_action, require_action, has_scope,
}
use codex_collaboration_coor.Credentials.Authenticate.{
  authenticate_secret, check_credential, check_principal, check_status, check_active,
  mark_credential_used, build_actor_identity, matched,
}
use codex_collaboration_coor.Credentials.Scopes.{
  sorted_scopes, expand_scopes, expand_from, add_all, json_load_scopes,
}
use codex_collaboration_coor.AccessBoundary.{
  Boundary, AccessRequest, authorize, with_token, authenticate_credential, decide_match,
  check_match, check_surface, token_matches, extract_token, bearer_token, client_host,
}
use codex_collaboration_coor.AccessBoundary.Laws.{authorize-require_operator_action}
use codex_collaboration_coor.Samples.{env_with}
use codex_collaboration_coor.Tests.{result}
use codex_collaboration_coor.Tests.Credentials.{principal, credential}

-- Every stored list of scopes is `["operator_write"]`.
abbrev scoped_env : Env
scoped_env = env_with (λ s. some (arr (cons (str "operator_write") nil))) "completed"

abbrev access_world : World
access_world = record empty_world {
  integration_principals = principal ∷ [];
  integration_credentials = record credential { status = active } ∷ [];
}

abbrev boundary : Boundary
boundary = record {
  access_boundary_mode = "protected";
  access_token = "";
  has_credentials = true;
  trusted_client_hosts = [];
}

abbrev request : AccessRequest
request = record { client = none; token_header = some "hush"; authorization = none }

abbrev identity : ActorIdentity
identity =
    build_actor_identity ⦃env = scoped_env⦄ "protected" (some "-") principal
      (record credential { status = active })

authorize-require_operator_action_example :
    (require_operator_action ⦃env = scoped_env⦄ identity "retry" ≡ ok true)
    × (one_of "operator_write" identity.credential_scopes ≡ true)
unfolding result past_due get_by_secret_hash require_operator_action require_action has_scope
    authenticate_secret check_credential check_principal check_status check_active
    mark_credential_used build_actor_identity matched sorted_scopes expand_scopes expand_from
    add_all json_load_scopes authorize with_token authenticate_credential decide_match check_match
    check_surface token_matches extract_token bearer_token client_host
authorize-require_operator_action_example =
    authorize-require_operator_action ⦃env = scoped_env⦄ boundary request identity "retry"
      access_world refl
