-- ===== src/Store/Repositories/Credentials.antt =====
-- The tables and queries of app/repositories/integration_credentials.py. The UNIQUE hash of a secret
-- is not modelled: secrets are drawn at random.
use codex_collaboration_coor.Common.{String, true, ◌&&◌, Option, [], ◌∷◌, ◌==◌, one_of, find_first}
use codex_collaboration_coor.Exec.{Exec, gets, ◌>>◌}
use codex_collaboration_coor.Store.{World}
use codex_collaboration_coor.Store.Records.Credentials.{
  IntegrationPrincipalRecord, IntegrationCredentialRecord,
}
use codex_collaboration_coor.Store.Table.{Table, create, update}

abbrev pub principal_repository : Table IntegrationPrincipalRecord
principal_repository = record {
  name = "Integration principal";
  key = λ r. r.id;
  admits = λ r.
      one_of r.principal_type ("integration_client" ∷ "service_account" ∷ [])
      && one_of r.actor_type ("human" ∷ "service" ∷ []);
  rows = λ w. w.integration_principals;
  with_rows = λ w rs. record w { integration_principals = rs };
}

abbrev pub credential_repository : Table IntegrationCredentialRecord
credential_repository = record {
  name = "Integration credential";
  key = λ r. r.id;
  admits = λ r. true;
  rows = λ w. w.integration_credentials;
  with_rows = λ w rs. record w { integration_credentials = rs };
}

unfoldable pub get_by_secret_hash : String → Exec World (Option IntegrationCredentialRecord)
get_by_secret_hash secret_hash =
    gets (λ w. find_first (λ r. r.secret_hash == secret_hash) w.integration_credentials)

-- One transaction: the update, then the insert, which no CHECK refuses.
unfoldable pub rotate :
    IntegrationCredentialRecord
    → IntegrationCredentialRecord
    → Exec World IntegrationCredentialRecord
rotate revoked replacement = do
  update credential_repository revoked
  create credential_repository replacement
