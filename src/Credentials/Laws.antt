-- ===== src/Credentials/Laws.antt =====
-- A credential of app/services/integration_credentials.py that is not active any more.
use codex_collaboration_coor.Common.{
  ℕ, ◌≤◌, String, ◌<>◌, ◌==◌, ◌&&◌, Bool, true, false, not, Option, some, List, [], ◌∷◌, ◌≡◌, refl,
  all_of, arith, Bool-cases, inl, inr, all_of-append, subst,
}
use codex_collaboration_coor.Exec.{Exec, ◌>>=◌}
use codex_collaboration_coor.Exec.Keeps.{Keeps, Keeps-bind, Keeps-lift, Keeps-pure, keeps_rules}
use codex_collaboration_coor.Exec.Ensures.{Ensures, Keeps-bind_known}
use codex_collaboration_coor.Store.{World}
use codex_collaboration_coor.Store.Records.Credentials.{
  IntegrationCredentialRecord, revoked, expired, is_active,
}
use codex_collaboration_coor.Store.Env.{Env, utc_now, new_id, new_token, past_due}
use codex_collaboration_coor.Store.Keeps.{Unseen, Keeps-get, Keeps-create}
use codex_collaboration_coor.Store.Table.{create, update}
use codex_collaboration_coor.Store.Table.Rows.{has_row, all_of-replace_row}
use codex_collaboration_coor.Store.Repositories.Credentials.{
  principal_repository, credential_repository, rotate,
}
use codex_collaboration_coor.Credentials.{
  NewPrincipal, CredentialArguments, new_credential, create_principal, get_principal,
  get_credential, issue_credential, replace_credential, rotate_credential, revoke_credential,
  expire_credential,
}

module _ (id : String) where
  -- Not the credential with the given id, or not active.
  abbrev pub dormant : IntegrationCredentialRecord → Bool
  dormant r = not (r.id == id && is_active r.status)

  module _ ⦃env : Env⦄ (k : ℕ) where
    -- No row with the id is active, and `k` ids at least have been drawn.
    abbrev pub Dead : World → Type 0
    Dead w = (k ≤ w.ids_drawn) × (all_of dormant w.integration_credentials ≡ true)

    Unseen-principals : Unseen Dead principal_repository
    Unseen-principals = record { at = λ w rs h. h }

    create-Dead :
        (r : IntegrationCredentialRecord)
        → dormant r ≡ true
        → Keeps Dead (create credential_repository r)
    unfolding create
    create-Dead r h = record {
      at = λ w d. (d.0, rw (all_of-append dormant w.integration_credentials (r ∷ []), d.1, h) refl);
    }

    pub update-Dead :
        (r : IntegrationCredentialRecord)
        → dormant r ≡ true
        → Keeps Dead (update credential_repository r)
    unfolding update
    update-Dead r h = record {
      at = λ w d. elim (Bool-cases (has_row (λ x. x.id) r.id w.integration_credentials)) [
        | inl e ↦
            rw e (d.0, all_of-replace_row (λ x. x.id) dormant r w.integration_credentials h d.1)
        | inr e ↦ rw e d
      ];
    }

    pub Dead-utc_now : Keeps Dead utc_now
    unfolding utc_now
    Dead-utc_now = record { at = λ w d. d }

    pub Dead-past_due : (value : String) → Keeps Dead (past_due value)
    unfolding past_due
    Dead-past_due value = record { at = λ w d. d }

    pub Dead-new_id : (prefix : String) → Keeps Dead (new_id prefix)
    unfolding new_id
    Dead-new_id prefix = record { at = λ w d. (omega (arith, d.0), d.1) }

    pub Dead-new_token : Keeps Dead new_token
    unfolding new_token
    Dead-new_token = record { at = λ w d. (omega (arith, d.0), d.1) }

    -- The ids still to be drawn are not this one.
    module _ (fresh : (n : ℕ) → k ≤ n → ("icr_" <> env.hex n == id) ≡ false) where
      Ensures-new_id : Ensures Dead (λ a s. (a == id) ≡ false) (new_id "icr_")
      unfolding new_id
      Ensures-new_id = record {
        at = λ w d a e.
            let same : "icr_" <> env.hex w.ids_drawn ≡ a = cc e in
            subst (λ z. (z == id) ≡ false) same (fresh w.ids_drawn d.0);
      }

      pub Dead-get_principal : (p : String) → Keeps Dead (get_principal p)
      unfolding get_principal
      Dead-get_principal p = search (keeps_rules, Keeps-get)

      pub Dead-get_credential : (c : String) → Keeps Dead (get_credential c)
      unfolding get_credential
      Dead-get_credential c = search (keeps_rules, Keeps-get)

      pub Dead-create_principal : (p : NewPrincipal) → Keeps Dead (create_principal p)
      unfolding create_principal
      Dead-create_principal p =
          search (keeps_rules, Keeps-create, Unseen-principals, Dead-utc_now, Dead-new_id) depth 12

      -- Whatever is done with a new id.
      with_id :
          {A : Type 0} (rest : String → Exec World A)
          → ((i : String) → (i == id) ≡ false → Keeps Dead (rest i))
          → Keeps Dead (new_id "icr_" >>= rest)
      with_id rest each = Keeps-bind_known _ _ _ (Dead-new_id "icr_") Ensures-new_id each

      new_credential-dormant :
          (p l : String) (n : Option String) (ss : List String) (e : Option String)
          (t i now : String)
          → (i == id) ≡ false
          → dormant (new_credential p l n ss e t i now) ≡ true
      unfolding new_credential
      new_credential-dormant p l n ss e t i now h = rw h refl

      pub Dead-issue_credential :
          (p : String) (a : CredentialArguments) → Keeps Dead (issue_credential p a)
      unfolding issue_credential
      Dead-issue_credential p a = Keeps-bind _ _ (Dead-get_principal p) (λ principal.
          Keeps-bind _ _ (Keeps-lift _) (λ scopes. Keeps-bind _ _ (Keeps-lift _) (λ expires_at.
            Keeps-bind _ _ Dead-new_token (λ t. Keeps-bind _ _ Dead-utc_now (λ now.
              with_id _ (λ i h.
                Keeps-bind _ _ (create-Dead _ (new_credential-dormant _ _ _ _ _ _ i now h))
                  (λ c. Keeps-pure _)))))))

      pub Dead-rotate :
          (r c : IntegrationCredentialRecord)
          → dormant r ≡ true
          → dormant c ≡ true
          → Keeps Dead (rotate r c)
      unfolding rotate
      Dead-rotate r c h g = search (keeps_rules, update-Dead, create-Dead)

      revoked-dormant :
          (c : IntegrationCredentialRecord) (reason why at : Option String) (now : String)
          → dormant (record c {
            status = revoked;
            status_reason = reason;
            status_note = why;
            revoked_at = at;
            updated_at = now;
          })
            ≡ true
      revoked-dormant c reason why at now = ground arith

      expired-dormant :
          (c : IntegrationCredentialRecord) (reason why at : Option String) (now : String)
          → dormant (record c {
            status = expired;
            status_reason = reason;
            status_note = why;
            expires_at = at;
            updated_at = now;
          })
            ≡ true
      expired-dormant c reason why at now = ground arith

      pub Dead-replace_credential :
          (c : IntegrationCredentialRecord) (a : CredentialArguments)
          → Keeps Dead (replace_credential c a)
      unfolding replace_credential
      Dead-replace_credential c a = Keeps-bind _ _ (Dead-get_principal c.principal_id) (λ principal.
          Keeps-bind _ _ (Keeps-lift _) (λ scopes. Keeps-bind _ _ (Keeps-lift _) (λ expires_at.
            Keeps-bind _ _ Dead-utc_now (λ now. Keeps-bind _ _ Dead-new_token (λ t.
              with_id _ (λ i h.
                Keeps-bind _ _
                  (Dead-rotate _ _ (revoked-dormant c (some "rotated") a.note (some now) now)
                    (new_credential-dormant _ _ _ _ _ _ i now h))
                  (λ made. Keeps-pure _)))))))

      pub Dead-rotate_credential :
          (c : String) (a : CredentialArguments) → Keeps Dead (rotate_credential c a)
      unfolding rotate_credential
      Dead-rotate_credential c a =
          search (keeps_rules, Dead-get_credential, Dead-replace_credential)

      pub Dead-revoke_credential :
          (c : String) (r n : Option String) → Keeps Dead (revoke_credential c r n)
      unfolding revoke_credential
      Dead-revoke_credential c r n =
          search (keeps_rules, Dead-get_credential, Dead-utc_now, update-Dead, revoked-dormant)
            depth 12

      pub Dead-expire_credential :
          (c : String) (r n : Option String) → Keeps Dead (expire_credential c r n)
      unfolding expire_credential
      Dead-expire_credential c r n =
          search (keeps_rules, Dead-get_credential, Dead-utc_now, update-Dead, expired-dormant)
            depth 12
