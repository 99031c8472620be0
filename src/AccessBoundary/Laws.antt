-- ===== src/AccessBoundary/Laws.antt =====
-- Whom app/services/access_boundary.py lets in to the surface of the operators.
use codex_collaboration_coor.Common.{
  String, Bool, true, false, Option, none, some, [], ◌∷◌, ◌≡◌, refl, ◌&&◌, one_of, arith,
  Bool-cases, inl, inr, subst, is_none, ◌==◌, if◌then◌else◌,
}
use codex_collaboration_coor.Exec.{Exec, ok, lift, pure, ◌>>=◌}
use codex_collaboration_coor.Exec.Ensures.{
  Ensures, Ensures-bind, Ensures-pure, Ensures-raise, Ensures-any,
}
use codex_collaboration_coor.Store.{World}
use codex_collaboration_coor.Store.Env.{Env}
use codex_collaboration_coor.Store.Records.Credentials.{active, revoked, expired}
use codex_collaboration_coor.Authz.{ActorIdentity, require_operator_action, has_scope}
use codex_collaboration_coor.Authz.Laws.{granted-require_action}
use codex_collaboration_coor.Credentials.{
  CredentialAuthMatch, MatchStatus, credential_is, principal_missing, invalid_expires_at,
}
use codex_collaboration_coor.AccessBoundary.{
  Boundary, AccessRequest, operator, token_matches, authenticate_credential, client_host,
  extract_token, check_surface, check_match, decide_match, with_token, authorize,
}

-- The identity of an operator with the operator's scope; no identity at all is a trusted caller.
abbrev may_operate : Option ActorIdentity → Bool
may_operate none = true
may_operate (some i) =
    one_of i.actor_role ("operator" ∷ "admin" ∷ []) && one_of "operator_write" i.credential_scopes

check_surface-may_operate :
    (i : ActorIdentity) (o : Option ActorIdentity)
    → check_surface operator i ≡ ok o
    → may_operate o ≡ true
unfolding check_surface
check_surface-may_operate i o h =
    elim (Bool-cases (one_of i.actor_role ("operator" ∷ "admin" ∷ []))) [
      | inr e ↦ absurd (cc (e, h))
      | inl e ↦ elim (Bool-cases (one_of "operator_write" i.credential_scopes)) [
        | inr f ↦ absurd (cc (e, f, h))
        | inl f ↦
            let same : some i ≡ o = cc (e, f, h) in
            subst (λ z. may_operate z ≡ true) same (rw (e, f) refl)
      ]
    ]

check_match-may_operate :
    (s : MatchStatus) (i o : Option ActorIdentity)
    → check_match operator s i ≡ ok o
    → may_operate o ≡ true
unfolding check_match
check_match-may_operate (credential_is active) (some i) o h = check_surface-may_operate i o h
check_match-may_operate (credential_is active) none o h = absurd (cc h)
check_match-may_operate (credential_is revoked) i o h = absurd (cc h)
check_match-may_operate (credential_is expired) i o h = absurd (cc h)
check_match-may_operate principal_missing i o h = absurd (cc h)
check_match-may_operate invalid_expires_at i o h = absurd (cc h)

decide_match-may_operate :
    (m : Option CredentialAuthMatch) (o : Option ActorIdentity)
    → decide_match operator m ≡ ok o
    → may_operate o ≡ true
unfolding decide_match
decide_match-may_operate none o h = absurd (cc h)
decide_match-may_operate (some m) o h = check_match-may_operate m.status m.actor_identity o h

module _ ⦃env : Env⦄ (b : Boundary) (r : AccessRequest) where
  abbrev Operates : Option ActorIdentity → World → Type 0
  Operates o w = may_operate o ≡ true

  Operates-decided :
      {P : World → Type 0} (m : Option CredentialAuthMatch)
      → Ensures P Operates (lift (decide_match operator m))
  unfolding lift
  Operates-decided m = record { at = λ w h o e. decide_match-may_operate m o e }

  -- A caller let in without an identity, or the rest of the checks.
  Operates-unless :
      {P : World → Type 0} (test : Bool) (rest : Exec World (Option ActorIdentity))
      → Ensures P Operates rest
      → Ensures P Operates (if test then pure none else rest)
  Operates-unless true rest e = Ensures-pure none (λ w h. refl)
  Operates-unless false rest e = e

  Operates-with_token :
      {P : World → Type 0} (o : Option String) → Ensures P Operates (with_token b r operator o)
  unfolding with_token
  Operates-with_token none = Ensures-raise _
  Operates-with_token (some token) =
      Operates-unless (token_matches b token)
        (authenticate_credential b token operator (client_host r) >>= λ found.
          lift (decide_match operator found))
        (Ensures-bind _ _ _ (Ensures-any _) Operates-decided)

  Operates-authorize : {P : World → Type 0} → Ensures P Operates (authorize b r operator)
  unfolding authorize
  Operates-authorize =
      Operates-unless (b.access_boundary_mode == "local")
        (if trusted then pure none else with_token b r operator (extract_token r))
        (Operates-unless trusted (with_token b r operator (extract_token r))
          (Operates-with_token (extract_token r)))
    where
      trusted : Bool
      trusted =
          b.access_boundary_mode == "trusted"
          && one_of (client_host r) b.trusted_client_hosts
          && is_none (extract_token r)

  -- Whoever is let in to the surface of the operators by a credential passes every check of an
  -- operator's action: the boundary asks for the role and for the scope `operator_write` itself, also
  -- of a credential that was issued without any scope.
  pub authorize-require_operator_action :
      (i : ActorIdentity) (action : String) (w : World)
      → (authorize b r operator w).0 ≡ ok (some i)
      → (require_operator_action i action ≡ ok true)
        × (one_of "operator_write" i.credential_scopes ≡ true)
  unfolding require_operator_action has_scope
  authorize-require_operator_action i action w e =
      let operates = (Operates-authorize {P = λ _. Unit {0}}).at w tt (some i) e in
      let scope_held : one_of "operator_write" i.credential_scopes ≡ true =
        ground (arith, operates) in
      (
        granted-require_action "operator_write" ("operator" ∷ "admin" ∷ []) i action
            (ground (arith, operates)),
        scope_held,
      )
