-- ===== src/Credentials/Kept.antt =====
-- What `authenticate_secret` of app/services/integration_credentials.py writes of a credential.
use codex_collaboration_coor.Common.{
  ℕ, String, Bool, true, false, Option, none, some, ◌≡◌, refl, arith,
}
use codex_collaboration_coor.Common.Members.{all_of-find_first}
use codex_collaboration_coor.Exec.{◌>>=◌, gets}
use codex_collaboration_coor.Exec.Keeps.{Keeps, Keeps-bind, Keeps-if, Keeps-pure, keeps_rules}
use codex_collaboration_coor.Store.Records.Credentials.{
  IntegrationCredentialRecord, IntegrationPrincipalRecord, CredentialStatus, active, revoked,
  expired,
}
use codex_collaboration_coor.Store.Env.{Env}
use codex_collaboration_coor.Store.Keeps.{Keeps-get}
use codex_collaboration_coor.Store.Repositories.Credentials.{
  principal_repository, get_by_secret_hash,
}
use codex_collaboration_coor.Credentials.Authenticate.{
  mark_credential_used, expire_now, check_expiry, check_active, check_status, check_principal,
  check_credential, authenticate_secret,
}
use codex_collaboration_coor.Credentials.Laws.{
  dormant, Dead, update-Dead, Dead-utc_now, Dead-past_due,
}

module _ (id : String) ⦃env : Env⦄ (auth_mode : String) (client_host : Option String) (k : ℕ) where
  used-Dead :
      (surface : String) (p : IntegrationPrincipalRecord) (c : IntegrationCredentialRecord)
      → dormant id c ≡ true
      → Keeps (Dead id k) (mark_credential_used auth_mode client_host surface p c)
  unfolding mark_credential_used
  used-Dead surface p c h =
      Keeps-bind _ _ (Dead-utc_now id k)
        (λ now. Keeps-bind _ _ (update-Dead id k _ h) (λ saved. Keeps-pure _))

  expire_now-Dead :
      (p : IntegrationPrincipalRecord) (c : IntegrationCredentialRecord)
      → Keeps (Dead id k) (expire_now auth_mode client_host p c)
  unfolding expire_now
  expire_now-Dead p c =
      Keeps-bind _ _ (Dead-utc_now id k)
        (λ now. Keeps-bind _ _ (update-Dead id k _ (ground arith)) (λ saved. Keeps-pure _))

  check_expiry-Dead :
      (surface : String) (p : IntegrationPrincipalRecord) (c : IntegrationCredentialRecord)
      (at : String) (o : Option Bool)
      → dormant id c ≡ true
      → Keeps (Dead id k) (check_expiry auth_mode client_host surface p c at o)
  unfolding check_expiry
  check_expiry-Dead surface p c at (some true) h =
      Keeps-bind _ _ (Dead-past_due id k at)
        (λ past. Keeps-if past _ _ (λ _. expire_now-Dead p c) (λ _. used-Dead surface p c h))
  check_expiry-Dead surface p c at (some false) h = search keeps_rules
  check_expiry-Dead surface p c at none h = search keeps_rules

  check_active-Dead :
      (surface : String) (p : IntegrationPrincipalRecord) (c : IntegrationCredentialRecord)
      (o : Option String)
      → dormant id c ≡ true
      → Keeps (Dead id k) (check_active auth_mode client_host surface p c o)
  unfolding check_active
  check_active-Dead surface p c none h = used-Dead surface p c h
  check_active-Dead surface p c (some at) h = check_expiry-Dead surface p c _ _ h

  check_status-Dead :
      (surface : String) (p : IntegrationPrincipalRecord) (c : IntegrationCredentialRecord)
      (s : CredentialStatus)
      → dormant id c ≡ true
      → Keeps (Dead id k) (check_status auth_mode client_host surface p c s)
  unfolding check_status
  check_status-Dead surface p c active h = check_active-Dead surface p c c.expires_at h
  check_status-Dead surface p c revoked h = search keeps_rules
  check_status-Dead surface p c expired h = search keeps_rules

  check_principal-Dead :
      (surface : String) (c : IntegrationCredentialRecord) (o : Option IntegrationPrincipalRecord)
      → dormant id c ≡ true
      → Keeps (Dead id k) (check_principal auth_mode client_host surface c o)
  unfolding check_principal
  check_principal-Dead surface c none h = search keeps_rules
  check_principal-Dead surface c (some p) h = check_status-Dead surface p c c.status h

  check_credential-Dead :
      (surface : String) (o : Option IntegrationCredentialRecord)
      → ((c : IntegrationCredentialRecord) → o ≡ some c → dormant id c ≡ true)
      → Keeps (Dead id k) (check_credential auth_mode client_host surface o)
  unfolding check_credential
  check_credential-Dead surface none h = search keeps_rules
  check_credential-Dead surface (some c) h =
      Keeps-bind _ _ (Keeps-get principal_repository _)
        (λ p. Keeps-bind _ _ (check_principal-Dead surface c p (h c refl)) (λ m. Keeps-pure _))

  pub authenticate_secret-Dead :
      (secret surface : String)
      → Keeps (Dead id k) (authenticate_secret auth_mode client_host secret surface)
  unfolding authenticate_secret get_by_secret_hash gets ◌>>=◌
  authenticate_secret-Dead secret surface = record {
    at = λ w d.
        (check_credential-Dead surface _
            (λ c found. all_of-find_first _ (dormant id) w.integration_credentials c d.1 found)).at
          w d;
  }
