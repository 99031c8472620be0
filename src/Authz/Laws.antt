-- ===== src/Authz/Laws.antt =====
-- What the checks of app/services/authz_service.py grant.
use codex_collaboration_coor.Common.{
  String, Bool, true, ◌≡◌, refl, Bool-cases, inl, inr, arith, one_of, [], ◌∷◌, ◌&&◌, ◌||◌, List,
}
use codex_collaboration_coor.Exec.{ok}
use codex_collaboration_coor.Store.Env.{Env}
use codex_collaboration_coor.Authz.{
  ActorIdentity, is_empty, has_scope, require_action, require_operator_action,
  require_approval_action, require_public_write,
}

-- The scope is held, or no scopes are given, and the role is allowed.
abbrev pub granted : String → List String → ActorIdentity → Bool
granted scope roles i =
    (is_empty i.credential_scopes || has_scope i.credential_scopes scope)
    && one_of i.actor_role roles

module _ ⦃env : Env⦄ where
  require_action-granted :
      (scope : String) (roles : List String) (i : ActorIdentity) (action : String)
      → require_action scope roles i action ≡ ok true
      → granted scope roles i ≡ true
  unfolding require_action
  require_action-granted scope roles i action h = elim (Bool-cases (is_empty i.credential_scopes)) [
    | inl e ↦ elim (Bool-cases (one_of i.actor_role roles)) [
      | inl r ↦ rw (e, r) refl
      | inr r ↦ absurd (cc (e, r, h))
    ]
    | inr e ↦ elim (Bool-cases (has_scope i.credential_scopes scope)) [
      | inr s ↦ absurd (cc (e, s, h))
      | inl s ↦ elim (Bool-cases (one_of i.actor_role roles)) [
        | inl r ↦ rw (e, s, r) refl
        | inr r ↦ absurd (cc (e, s, r, h))
      ]
    ]
  ]

  pub granted-require_action :
      (scope : String) (roles : List String) (i : ActorIdentity) (action : String)
      → granted scope roles i ≡ true
      → require_action scope roles i action ≡ ok true
  unfolding require_action
  granted-require_action scope roles i action h = elim (Bool-cases (is_empty i.credential_scopes)) [
    | inl e ↦ let role : one_of i.actor_role roles ≡ true = ground (arith, h) in rw (e, role) refl
    | inr e ↦
        let role : one_of i.actor_role roles ≡ true = ground (arith, h) in
        let scope_held : has_scope i.credential_scopes scope ≡ true = ground (arith, h, e) in
        rw (e, scope_held, role) refl
  ]

  -- Who may act as an operator may also decide approvals and write to the public interface, whatever
  -- the actions are called: operators and administrators are in all three lists of roles, and the
  -- scope for operators stands for the one for public writes.
  pub require_operator_action-weaker :
      (i : ActorIdentity) (action approval write : String)
      → require_operator_action i action ≡ ok true
      → (require_approval_action i approval ≡ ok true) × (require_public_write i write ≡ ok true)
  unfolding require_operator_action require_approval_action require_public_write has_scope
  require_operator_action-weaker i action approval write h =
      let g = require_action-granted "operator_write" ("operator" ∷ "admin" ∷ []) i action h in
      (
        granted-require_action "operator_write" ("operator" ∷ "reviewer" ∷ "admin" ∷ []) i approval
            (ground (arith, g)),
        granted-require_action "public_write" ("integration_client" ∷ "operator" ∷ "admin" ∷ []) i
            write (ground (arith, g)),
      )
