-- ===== src/Credentials.antt =====
-- app/services/integration_credentials.py
pub mod Scopes
pub mod Authenticate
pub mod Laws
pub mod Dormant
pub mod Kept
pub mod Calls
use codex_collaboration_coor.Common.{
  String, ◌<>◌, ◌==◌, Bool, true, false, not, Option, none, some, List, [], ◌∷◌, one_of, or_else,
  or_option, if◌then◌else◌,
}
use codex_collaboration_coor.Common.Text.{strip, lower, take, z_to_offset}
use codex_collaboration_coor.Exec.{
  Exec, Outcome, ok, err, pure, raise, lift, some_or_raise, not_found_error, conflict_error,
  value_error, ◌>>=◌, ◌>>◌,
}
use codex_collaboration_coor.Store.{World}
use codex_collaboration_coor.Store.Records.Credentials.{
  IntegrationPrincipalRecord, IntegrationCredentialRecord, CredentialStatus, active, revoked,
  expired, credential_status_text, is_active, is_revoked, is_expired,
}
use codex_collaboration_coor.Store.Env.{Env, utc_now, new_id, new_token, past_due}
use codex_collaboration_coor.Store.Table.{get, create, update}
use codex_collaboration_coor.Store.Repositories.Credentials.{
  principal_repository, credential_repository, get_by_secret_hash, rotate,
}
use codex_collaboration_coor.Authz.{ActorIdentity, valid_roles}
use codex_collaboration_coor.Credentials.Scopes.{
  normalize_scopes, sorted_scopes, json_load_scopes, json_dump_scopes,
}

pub record CredentialIssueResult : Type 0 where
  pub credential : IntegrationCredentialRecord
  pub secret_value : String
  pub replaced_credential_id : Option String

-- The statuses of a match, `principal_missing` and `invalid_expires_at` beside those of a credential.
pub data MatchStatus : Type 0 where
  credential_is : CredentialStatus → MatchStatus
  principal_missing invalid_expires_at : MatchStatus

pub record CredentialAuthMatch : Type 0 where
  pub status : MatchStatus
  pub principal : Option IntegrationPrincipalRecord
  pub credential : IntegrationCredentialRecord
  pub actor_identity : Option ActorIdentity

-- The arguments of `create_principal`.
pub record NewPrincipal : Type 0 where
  pub display_label : String
  pub principal_type : String
  pub actor_role : String
  pub actor_type : String
  pub default_scopes : Option (List String)
  pub notes : Option String

-- The optional arguments of `issue_credential` and `rotate_credential`.
pub record CredentialArguments : Type 0 where
  pub label : Option String
  pub scopes : Option (List String)
  pub expires_at : Option String
  pub note : Option String

unfoldable pub label_or : Option String → String → String
label_or none other = other
label_or (some label) other = if strip label == "" then other else strip label

-- `_is_past_due`, or `none` where it raises.
abbrev pub offset_of : ⦃env : Env⦄ → String → Option Bool
offset_of ⦃env⦄ value = env.iso_offset (z_to_offset (strip value))

abbrev checked_offset : String → Option Bool → Outcome (Option String)
checked_offset normalized (some true) = ok (some normalized)
checked_offset normalized (some false) =
    err (value_error "expires_at must include a timezone offset")
checked_offset normalized none = err (value_error "Invalid isoformat string")

module _ ⦃env : Env⦄ where
  unfoldable pub validate_expires_at : Option String → Outcome (Option String)
  validate_expires_at none = ok none
  validate_expires_at (some expires_at) =
      if strip expires_at == ""
      then err (value_error "expires_at must be a timezone-aware ISO 8601 datetime")
      else checked_offset (strip expires_at) (offset_of (strip expires_at))

  abbrev default_scopes_of : NewPrincipal → Outcome (List String)
  default_scopes_of p = elim p.default_scopes [
    | none ↦
        ok (
          if p.actor_role == "integration_client"
          then "public_read" ∷ []
          else "operator_write" ∷ [])
    | some scopes ↦ normalize_scopes true (some scopes)
  ]

  unfoldable pub new_principal :
      NewPrincipal → String → List String → String → String → IntegrationPrincipalRecord
  new_principal p actor_type scopes id now = record {
    id = id;
    display_label = strip p.display_label;
    principal_type = p.principal_type;
    actor_role = p.actor_role;
    actor_type = actor_type;
    source = "managed";
    default_scopes_json = json_dump_scopes scopes;
    notes = p.notes;
    created_at = now;
    updated_at = now;
  }

  unfoldable pub create_principal : NewPrincipal → Exec World IntegrationPrincipalRecord
  create_principal p =
      if not (one_of p.principal_type ("integration_client" ∷ "service_account" ∷ []))
      then raise (value_error ("Unsupported principal type: " <> p.principal_type))
      else if not (one_of p.actor_role valid_roles)
      then raise (value_error ("Unsupported actor role: " <> p.actor_role))
      else if not (one_of (lower (strip p.actor_type)) ("human" ∷ "service" ∷ []))
      then raise (value_error ("Unsupported actor type: " <> p.actor_type))
      else (do
        scopes ← lift (default_scopes_of p)
        now ← utc_now
        id ← new_id "ipr_"
        create principal_repository (new_principal p (lower (strip p.actor_type)) scopes id now))

  unfoldable pub get_principal : String → Exec World IntegrationPrincipalRecord
  get_principal principal_id = do
    found ← get principal_repository principal_id
    some_or_raise (not_found_error ("Integration principal not found: " <> principal_id)) found

  unfoldable pub get_credential : String → Exec World IntegrationCredentialRecord
  get_credential credential_id = do
    found ← get credential_repository credential_id
    some_or_raise (not_found_error ("Integration credential not found: " <> credential_id)) found

  unfoldable pub new_credential :
      String
      → String
      → Option String
      → List String
      → Option String
      → String
      → String
      → String
      → IntegrationCredentialRecord
  new_credential principal_id label notes scopes expires_at secret_value id now = record {
    id = id;
    principal_id = principal_id;
    label = label;
    secret_hash = env.sha256_hex secret_value;
    secret_prefix = take 8 secret_value;
    scopes_json = json_dump_scopes scopes;
    status = active;
    status_reason = none;
    status_note = none;
    expires_at = expires_at;
    revoked_at = none;
    last_used_at = none;
    last_used_surface = none;
    notes = notes;
    created_at = now;
    updated_at = now;
  }

  -- The scopes asked for, else those stored.
  abbrev scopes_or : Option (List String) → String → Outcome (List String)
  scopes_or none scopes_json = normalize_scopes true (some (json_load_scopes scopes_json))
  scopes_or (some scopes) scopes_json = normalize_scopes true (some scopes)

  unfoldable pub issue_credential : String → CredentialArguments → Exec World CredentialIssueResult
  issue_credential principal_id a = do
    principal ← get_principal principal_id
    scopes ← lift (scopes_or a.scopes principal.default_scopes_json)
    expires_at ← lift (validate_expires_at a.expires_at)
    secret_value ← new_token
    now ← utc_now
    id ← new_id "icr_"
    created ← create credential_repository (
        new_credential principal.id (label_or a.label principal.display_label) a.note scopes
          expires_at secret_value id now)
    pure (record {
      credential = created;
      secret_value = secret_value;
      replaced_credential_id = none;
    })

  abbrev first_given : Option String → Option String → Option String
  first_given none other = other
  first_given (some given) other = some given

  unfoldable pub replace_credential :
      IntegrationCredentialRecord → CredentialArguments → Exec World CredentialIssueResult
  replace_credential credential a = do
    principal ← get_principal credential.principal_id
    scopes ← lift (scopes_or a.scopes credential.scopes_json)
    expires_at ← lift (validate_expires_at (first_given a.expires_at credential.expires_at))
    now ← utc_now
    secret_value ← new_token
    id ← new_id "icr_"
    created ←
        rotate
          (record credential {
            status = revoked;
            status_reason = some "rotated";
            status_note = a.note;
            revoked_at = some now;
            updated_at = now;
          })
          (new_credential principal.id (label_or a.label credential.label)
            (first_given a.note credential.notes) scopes expires_at secret_value id now)
    pure (record {
      credential = created;
      secret_value = secret_value;
      replaced_credential_id = some credential.id;
    })

  unfoldable pub rotate_credential : String → CredentialArguments → Exec World CredentialIssueResult
  rotate_credential credential_id a = do
    credential ← get_credential credential_id
    if is_active credential.status
        then replace_credential credential a
        else raise (
            conflict_error (
              "Credential "
              <> credential_id
              <> " cannot be rotated from status "
              <> credential_status_text credential.status))

  unfoldable pub revoke_credential :
      String → Option String → Option String → Exec World IntegrationCredentialRecord
  revoke_credential credential_id reason note = do
    credential ← get_credential credential_id
    if is_revoked credential.status then pure credential else (do
      now ← utc_now
      update credential_repository (record credential {
        status = revoked;
        status_reason = some (or_else reason "revoked");
        status_note = note;
        revoked_at = some now;
        updated_at = now;
      }))

  unfoldable pub expire_credential :
      String → Option String → Option String → Exec World IntegrationCredentialRecord
  expire_credential credential_id reason note = do
    credential ← get_credential credential_id
    if is_expired credential.status then pure credential else (do
      now ← utc_now
      update credential_repository (record credential {
        status = expired;
        status_reason = some (or_else reason "expired");
        status_note = note;
        expires_at = or_option credential.expires_at (some now);
        updated_at = now;
      }))
