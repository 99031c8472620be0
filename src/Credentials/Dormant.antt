-- ===== src/Credentials/Dormant.antt =====
-- Bearer secrets of a credential of app/services/integration_credentials.py that is not active.
use codex_collaboration_coor.Common.{
  String, ◌==◌, ◌&&◌, Bool, true, false, Option, none, some, ◌≡◌, refl, all_of, arith, Bool-cases,
  inl, inr, subst, sym,
}
use codex_collaboration_coor.Common.Members.{all_of-find_first}
use codex_collaboration_coor.Exec.{Exec, ◌>>=◌, gets, pure}
use codex_collaboration_coor.Exec.Ensures.{
  Ensures, Ensures-bind, Ensures-pure, Ensures-if, Ensures-any,
}
use codex_collaboration_coor.Store.{World}
use codex_collaboration_coor.Store.Records.Credentials.{
  IntegrationCredentialRecord, IntegrationPrincipalRecord, CredentialStatus, active, revoked,
  expired, is_active,
}
use codex_collaboration_coor.Store.Env.{Env}
use codex_collaboration_coor.Store.Table.{update}
use codex_collaboration_coor.Store.Table.Rows.{has_row}
use codex_collaboration_coor.Store.Repositories.Credentials.{
  credential_repository, get_by_secret_hash,
}
use codex_collaboration_coor.Credentials.{CredentialAuthMatch, MatchStatus, credential_is}
use codex_collaboration_coor.Credentials.Authenticate.{
  matched, mark_credential_used, expire_now, check_expiry, check_active, check_status,
  check_principal, check_credential, authenticate_secret,
}
use codex_collaboration_coor.Credentials.Laws.{dormant}

abbrev is_active_match : MatchStatus → Bool
is_active_match (credential_is s) = is_active s
is_active_match _ = false

-- A match that lets the credential with the given id in.
abbrev pub lets_in : String → Option CredentialAuthMatch → Bool
lets_in id none = false
lets_in id (some m) = m.credential.id == id && is_active_match m.status

module _ (id : String) ⦃env : Env⦄ (auth_mode : String) (client_host : Option String) where
  Ensures-saved :
      {P : World → Type 0} (r : IntegrationCredentialRecord)
      → Ensures P (λ saved w. saved ≡ r) (update credential_repository r)
  unfolding update
  Ensures-saved r = record {
    at = λ w h a e. elim (Bool-cases (has_row (λ x. x.id) r.id w.integration_credentials)) [
      | inl there ↦ sym (cc (there, e))
      | inr gone ↦ absurd (cc (gone, e))
    ];
  }

  -- A match of another credential.
  abbrev Other : CredentialAuthMatch → World → Type 0
  Other m w = (m.credential.id == id) ≡ false

  Other-saved :
      {P : World → Type 0} (status : MatchStatus) (p : IntegrationPrincipalRecord)
      (found r : IntegrationCredentialRecord)
      → (r.id == id) ≡ false
      → Ensures P Other (
          update credential_repository r >>= λ saved.
          pure (matched auth_mode client_host status p found saved))
  unfolding matched
  Other-saved status p found r other =
      Ensures-bind _ _ _ (Ensures-saved r)
        (λ saved. Ensures-pure _ (λ w same. subst (λ z. (z.id == id) ≡ false) (sym same) other))

  Other-mark :
      {P : World → Type 0} (surface : String) (p : IntegrationPrincipalRecord)
      (c : IntegrationCredentialRecord)
      → (c.id == id) ≡ false
      → Ensures P Other (mark_credential_used auth_mode client_host surface p c)
  unfolding mark_credential_used
  Other-mark surface p c other =
      Ensures-bind _ _ _ (Ensures-any _) (λ now. Other-saved _ p c _ other)

  Other-expire :
      {P : World → Type 0} (p : IntegrationPrincipalRecord) (c : IntegrationCredentialRecord)
      → (c.id == id) ≡ false
      → Ensures P Other (expire_now auth_mode client_host p c)
  unfolding expire_now
  Other-expire p c other = Ensures-bind _ _ _ (Ensures-any _) (λ now. Other-saved _ p c _ other)

  Other-check_expiry :
      {P : World → Type 0} (surface : String) (p : IntegrationPrincipalRecord)
      (c : IntegrationCredentialRecord) (at : String) (o : Option Bool)
      → (c.id == id) ≡ false
      → Ensures P Other (check_expiry auth_mode client_host surface p c at o)
  unfolding check_expiry matched
  Other-check_expiry surface p c at (some true) other = Ensures-bind _ _ _ (Ensures-any _) (λ past.
      Ensures-if past _ _ (λ _. Other-expire p c other) (λ _. Other-mark surface p c other))
  Other-check_expiry surface p c at (some false) other = Ensures-pure _ (λ w h. other)
  Other-check_expiry surface p c at none other = Ensures-pure _ (λ w h. other)

  Other-check_active :
      {P : World → Type 0} (surface : String) (p : IntegrationPrincipalRecord)
      (c : IntegrationCredentialRecord) (o : Option String)
      → (c.id == id) ≡ false
      → Ensures P Other (check_active auth_mode client_host surface p c o)
  unfolding check_active
  Other-check_active surface p c none other = Other-mark surface p c other
  Other-check_active surface p c (some at) other = Other-check_expiry surface p c _ _ other

  abbrev Refused : CredentialAuthMatch → World → Type 0
  Refused m w = lets_in id (some m) ≡ false

  Other-Refused :
      {P : World → Type 0} (m : Exec World CredentialAuthMatch)
      → Ensures P Other m
      → Ensures P Refused m
  Other-Refused m e = record { at = λ w h a r. rw (e.at w h a r) refl }

  Refused-check_status :
      {P : World → Type 0} (surface : String) (p : IntegrationPrincipalRecord)
      (c : IntegrationCredentialRecord) (s : CredentialStatus)
      → (c.id == id && is_active s) ≡ false
      → Ensures P Refused (check_status auth_mode client_host surface p c s)
  unfolding check_status matched
  Refused-check_status surface p c active h =
      Other-Refused _ (Other-check_active surface p c c.expires_at (ground (arith, h)))
  Refused-check_status surface p c revoked h = Ensures-pure _ (λ w k. h)
  Refused-check_status surface p c expired h = Ensures-pure _ (λ w k. h)

  Refused-check_principal :
      {P : World → Type 0} (surface : String) (c : IntegrationCredentialRecord)
      (o : Option IntegrationPrincipalRecord)
      → dormant id c ≡ true
      → Ensures P Refused (check_principal auth_mode client_host surface c o)
  unfolding check_principal
  Refused-check_principal surface c none h = Ensures-pure _ (λ w k. ground arith)
  Refused-check_principal surface c (some p) h =
      Refused-check_status surface p c c.status (ground (arith, h))

  Refused-check_credential :
      {P : World → Type 0} (surface : String) (o : Option IntegrationCredentialRecord)
      → ((c : IntegrationCredentialRecord) → o ≡ some c → dormant id c ≡ true)
      → Ensures P (λ m w. lets_in id m ≡ false) (check_credential auth_mode client_host surface o)
  unfolding check_credential
  Refused-check_credential surface none h = Ensures-pure _ (λ w k. refl)
  Refused-check_credential surface (some c) h = Ensures-bind _ _ _ (Ensures-any _) (λ p.
      Ensures-bind _ _ _ (Refused-check_principal surface c p (h c refl))
        (λ m. Ensures-pure _ (λ w refused. refused)))

  pub Refused-authenticate_secret :
      (secret surface : String)
      → Ensures
          (λ w. all_of (dormant id) w.integration_credentials ≡ true)
          (λ m w. lets_in id m ≡ false)
          (authenticate_secret auth_mode client_host secret surface)
  unfolding authenticate_secret get_by_secret_hash gets ◌>>=◌
  Refused-authenticate_secret secret surface = record {
    at = λ w h m e.
        (Refused-check_credential {P = λ _. Unit {0}} surface _
            (λ c found. all_of-find_first _ (dormant id) w.integration_credentials c h found)).at
          w tt m e;
  }
