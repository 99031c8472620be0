-- ===== src/Credentials/Authenticate.antt =====
-- `authenticate_secret` of app/services/integration_credentials.py.
use codex_collaboration_coor.Common.{String, Bool, true, Option, none, some, if◌then◌else◌}
use codex_collaboration_coor.Common.Text.{strip, z_to_offset}
use codex_collaboration_coor.Exec.{Exec, pure, ◌>>=◌}
use codex_collaboration_coor.Store.{World}
use codex_collaboration_coor.Store.Records.Credentials.{
  IntegrationPrincipalRecord, IntegrationCredentialRecord, CredentialStatus, active, expired,
  credential_status_text,
}
use codex_collaboration_coor.Store.Env.{Env, utc_now, past_due}
use codex_collaboration_coor.Store.Table.{get, update}
use codex_collaboration_coor.Store.Repositories.Credentials.{
  principal_repository, credential_repository, get_by_secret_hash,
}
use codex_collaboration_coor.Authz.{ActorIdentity}
use codex_collaboration_coor.Credentials.{
  CredentialAuthMatch, MatchStatus, credential_is, principal_missing, invalid_expires_at, offset_of,
}
use codex_collaboration_coor.Credentials.Scopes.{sorted_scopes, json_load_scopes}

module _ ⦃env : Env⦄ (auth_mode : String) (client_host : Option String) where
  unfoldable pub build_actor_identity :
      IntegrationPrincipalRecord → IntegrationCredentialRecord → ActorIdentity
  build_actor_identity principal credential = record {
    principal_id = some principal.id;
    credential_id = some credential.id;
    actor_id = principal.id;
    actor_role = principal.actor_role;
    actor_type = principal.actor_type;
    display_label = some principal.display_label;
    source = "credentials";
    auth_mode = auth_mode;
    credential_scopes = sorted_scopes (json_load_scopes credential.scopes_json);
    credential_status = some (credential_status_text credential.status);
    client_host = client_host;
  }

  -- The identity is made from the credential as it was found.
  unfoldable pub matched :
      MatchStatus
      → IntegrationPrincipalRecord
      → IntegrationCredentialRecord
      → IntegrationCredentialRecord
      → CredentialAuthMatch
  matched status principal found credential = record {
    status = status;
    principal = some principal;
    credential = credential;
    actor_identity = some (build_actor_identity principal found);
  }

  unfoldable pub mark_credential_used :
      String
      → IntegrationPrincipalRecord
      → IntegrationCredentialRecord
      → Exec World CredentialAuthMatch
  mark_credential_used surface principal credential = do
    now ← utc_now
    saved ← update credential_repository (record credential {
      last_used_at = some now;
      last_used_surface = some surface;
      updated_at = now;
    })
    pure (matched (credential_is active) principal credential saved)

  unfoldable pub expire_now :
      IntegrationPrincipalRecord → IntegrationCredentialRecord → Exec World CredentialAuthMatch
  expire_now principal credential = do
    now ← utc_now
    saved ←
        update credential_repository
          (record credential { status = expired; status_reason = some "expired"; updated_at = now })
    pure (matched (credential_is expired) principal credential saved)

  -- What `fromisoformat` makes of the expiry: without an offset the comparison raises.
  unfoldable pub check_expiry :
      String
      → IntegrationPrincipalRecord
      → IntegrationCredentialRecord
      → String
      → Option Bool
      → Exec World CredentialAuthMatch
  check_expiry surface principal credential expires_at (some true) = do
    is_past ← past_due expires_at
    if is_past
        then expire_now principal credential
        else mark_credential_used surface principal credential
  check_expiry surface principal credential expires_at _ =
      pure (matched invalid_expires_at principal credential credential)

  unfoldable pub check_active :
      String
      → IntegrationPrincipalRecord
      → IntegrationCredentialRecord
      → Option String
      → Exec World CredentialAuthMatch
  check_active surface principal credential none = mark_credential_used surface principal credential
  check_active surface principal credential (some expires_at) =
      check_expiry surface principal credential (z_to_offset (strip expires_at))
        (offset_of expires_at)

  unfoldable pub check_status :
      String
      → IntegrationPrincipalRecord
      → IntegrationCredentialRecord
      → CredentialStatus
      → Exec World CredentialAuthMatch
  check_status surface principal credential active =
      check_active surface principal credential credential.expires_at
  check_status surface principal credential status =
      pure (matched (credential_is status) principal credential credential)

  unfoldable pub check_principal :
      String
      → IntegrationCredentialRecord
      → Option IntegrationPrincipalRecord
      → Exec World CredentialAuthMatch
  check_principal surface credential none = pure (record {
    status = principal_missing;
    principal = none;
    credential = credential;
    actor_identity = none;
  })
  check_principal surface credential (some principal) =
      check_status surface principal credential credential.status

  unfoldable pub check_credential :
      String → Option IntegrationCredentialRecord → Exec World (Option CredentialAuthMatch)
  check_credential surface none = pure none
  check_credential surface (some credential) = do
    principal ← get principal_repository credential.principal_id
    found ← check_principal surface credential principal
    pure (some found)

  unfoldable pub authenticate_secret : String → String → Exec World (Option CredentialAuthMatch)
  authenticate_secret secret_value surface = do
    credential ← get_by_secret_hash (env.sha256_hex secret_value)
    check_credential surface credential
