-- ===== src/Store/Records/Credentials.antt =====
-- The rows of app/repositories/integration_credentials.py.
use codex_collaboration_coor.Common.{String, Bool, true, false, Option}

-- integration_credentials.status
pub data CredentialStatus : Type 0 where
  active revoked expired : CredentialStatus

unfoldable pub credential_status_text : CredentialStatus → String
credential_status_text active = "active"
credential_status_text revoked = "revoked"
credential_status_text expired = "expired"

abbrev pub is_active : CredentialStatus → Bool
is_active active = true
is_active _ = false

abbrev pub is_revoked : CredentialStatus → Bool
is_revoked revoked = true
is_revoked _ = false

abbrev pub is_expired : CredentialStatus → Bool
is_expired expired = true
is_expired _ = false

pub record IntegrationPrincipalRecord : Type 0 where
  pub id : String
  pub display_label : String
  pub principal_type : String
  pub actor_role : String
  pub actor_type : String
  pub source : String
  pub default_scopes_json : String
  pub notes : Option String
  pub created_at : String
  pub updated_at : String

pub record IntegrationCredentialRecord : Type 0 where
  pub id : String
  pub principal_id : String
  pub label : String
  pub secret_hash : String
  pub secret_prefix : String
  pub scopes_json : String
  pub status : CredentialStatus
  pub status_reason : Option String
  pub status_note : Option String
  pub expires_at : Option String
  pub revoked_at : Option String
  pub last_used_at : Option String
  pub last_used_surface : Option String
  pub notes : Option String
  pub created_at : String
  pub updated_at : String
