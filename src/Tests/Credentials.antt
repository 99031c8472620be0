-- ===== src/Tests/Credentials.antt =====
-- A revoked credential, and an operator.
use codex_collaboration_coor.Common.{true, false, none, some, [], ◌∷◌, ◌≡◌, refl}
use codex_collaboration_coor.Exec.{ok}
use codex_collaboration_coor.Store.{World, empty_world}
use codex_collaboration_coor.Store.Records.Credentials.{
  IntegrationPrincipalRecord, IntegrationCredentialRecord, revoked,
}
use codex_collaboration_coor.Store.Repositories.Credentials.{get_by_secret_hash}
use codex_collaboration_coor.Authz.{
  ActorIdentity, require_action, require_operator_action, require_approval_action,
  require_public_write, has_scope,
}
use codex_collaboration_coor.Authz.Laws.{require_operator_action-weaker}
use codex_collaboration_coor.Credentials.{
  CredentialAuthMatch, credential_is, revoke_credential, get_credential,
}
use codex_collaboration_coor.Credentials.Authenticate.{
  authenticate_secret, check_credential, check_principal, check_status, build_actor_identity,
  matched,
}
use codex_collaboration_coor.Credentials.Dormant.{lets_in}
use codex_collaboration_coor.Credentials.Calls.{
  after_call, after_calls, authenticate_secret-lets_in, authenticate, revoke,
}
use codex_collaboration_coor.Credentials.Scopes.{
  sorted_scopes, expand_scopes, expand_from, add_all, json_load_scopes,
}
use codex_collaboration_coor.Samples.{sample_env}
use codex_collaboration_coor.Tests.{result}

abbrev pub principal : IntegrationPrincipalRecord
principal = record {
  id = "ipr_1";
  display_label = "Robot";
  principal_type = "service_account";
  actor_role = "operator";
  actor_type = "service";
  source = "managed";
  default_scopes_json = "[]";
  notes = none;
  created_at = "then";
  updated_at = "then";
}

abbrev pub credential : IntegrationCredentialRecord
credential = record {
  id = "icr_1";
  principal_id = "ipr_1";
  label = "Robot";
  secret_hash = "hush";
  secret_prefix = "hu";
  scopes_json = "[]";
  status = revoked;
  status_reason = some "revoked";
  status_note = none;
  expires_at = none;
  revoked_at = some "then";
  last_used_at = none;
  last_used_surface = none;
  notes = none;
  created_at = "then";
  updated_at = "then";
}

abbrev credential_world : World
credential_world = record empty_world {
  integration_principals = principal ∷ [];
  integration_credentials = credential ∷ [];
}

abbrev identity : ActorIdentity
identity = build_actor_identity ⦃env = sample_env⦄ "protected" none principal credential

abbrev refused_match : CredentialAuthMatch
refused_match = record {
  status = credential_is revoked;
  principal = some principal;
  credential = credential;
  actor_identity = some identity;
}

authenticate_secret-lets_in_example : lets_in "icr_1" (some refused_match) ≡ false
unfolding result build_actor_identity after_calls after_call authenticate_secret check_credential
    check_principal check_status matched get_by_secret_hash revoke_credential get_credential
authenticate_secret-lets_in_example =
    authenticate_secret-lets_in ⦃env = sample_env⦄ "icr_1" "hush" "api" "protected" none
      (revoke "icr_1" none none ∷ authenticate "hush" "api" "protected" none ∷ []) credential_world
      (some refused_match) (λ n h. refl) refl refl

require_operator_action-weaker_example :
    (require_approval_action ⦃env = sample_env⦄ identity "approve" ≡ ok true)
    × (require_public_write ⦃env = sample_env⦄ identity "write" ≡ ok true)
unfolding result build_actor_identity require_operator_action require_action has_scope sorted_scopes
    expand_scopes expand_from add_all json_load_scopes
require_operator_action-weaker_example =
    require_operator_action-weaker ⦃env = sample_env⦄ identity "retry" "approve" "write" refl
