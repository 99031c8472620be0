-- ===== src/Credentials/Calls.antt =====
-- Sequences of calls of app/services/integration_credentials.py.
use codex_collaboration_coor.Common.{
  ℕ, ◌≤◌, String, ◌<>◌, ◌==◌, true, false, Option, List, [], ◌∷◌, ◌≡◌, all_of, arith,
}
use codex_collaboration_coor.Exec.{ok}
use codex_collaboration_coor.Store.{World}
use codex_collaboration_coor.Store.Env.{Env}
use codex_collaboration_coor.Credentials.{
  NewPrincipal, CredentialArguments, CredentialAuthMatch, create_principal, issue_credential,
  rotate_credential, revoke_credential, expire_credential,
}
use codex_collaboration_coor.Credentials.Authenticate.{authenticate_secret}
use codex_collaboration_coor.Credentials.Laws.{
  dormant, Dead, Dead-create_principal, Dead-issue_credential, Dead-rotate_credential,
  Dead-revoke_credential, Dead-expire_credential,
}
use codex_collaboration_coor.Credentials.Dormant.{lets_in, Refused-authenticate_secret}
use codex_collaboration_coor.Credentials.Kept.{authenticate_secret-Dead}

-- A call of the service.
pub data Call : Type 0 where
  create : NewPrincipal → Call
  issue rotate : String → CredentialArguments → Call
  revoke expire : String → Option String → Option String → Call
  -- a secret, a surface, the mode and the host
  authenticate : String → String → String → Option String → Call

module _ ⦃env : Env⦄ where
  -- The database after a call, whether it returns or raises, and after several.
  unfoldable pub after_call : Call → World → World
  after_call (create p) w = (create_principal p w).1
  after_call (issue p a) w = (issue_credential p a w).1
  after_call (rotate c a) w = (rotate_credential c a w).1
  after_call (revoke c reason why) w = (revoke_credential c reason why w).1
  after_call (expire c reason why) w = (expire_credential c reason why w).1
  after_call (authenticate secret surface mode host) w =
      (authenticate_secret mode host secret surface w).1

  unfoldable pub after_calls : List Call → World → World
  after_calls [] w = w
  after_calls (c ∷ cs) w = after_calls cs (after_call c w)

  module _ (id : String) (k : ℕ)
      (fresh : (n : ℕ) → k ≤ n → ("icr_" <> env.hex n == id) ≡ false) where
    after_call-Dead : (c : Call) (w : World) → Dead id k w → Dead id k (after_call c w)
    unfolding after_call
    after_call-Dead (create p) w d = (Dead-create_principal id k fresh p).at w d
    after_call-Dead (issue p a) w d = (Dead-issue_credential id k fresh p a).at w d
    after_call-Dead (rotate c a) w d = (Dead-rotate_credential id k fresh c a).at w d
    after_call-Dead (revoke c reason why) w d =
        (Dead-revoke_credential id k fresh c reason why).at w d
    after_call-Dead (expire c reason why) w d =
        (Dead-expire_credential id k fresh c reason why).at w d
    after_call-Dead (authenticate secret surface mode host) w d =
        (authenticate_secret-Dead id mode host k secret surface).at w d

    after_calls-Dead : (cs : List Call) (w : World) → Dead id k w → Dead id k (after_calls cs w)
    unfolding after_calls
    after_calls-Dead [] w d = d
    after_calls-Dead (c ∷ cs) w d = after_calls-Dead cs (after_call c w) (after_call-Dead c w d)

  -- If no row with an id is active and the ids still to be drawn differ from it, then no secret is
  -- ever again authenticated as that credential, after any sequence of principals created and
  -- credentials issued, rotated, revoked, expired and used: a credential once revoked or expired
  -- does not come back to life.
  pub authenticate_secret-lets_in :
      (id secret surface mode : String) (host : Option String) (cs : List Call) (w : World)
      (m : Option CredentialAuthMatch)
      → ((n : ℕ) → w.ids_drawn ≤ n → ("icr_" <> env.hex n == id) ≡ false)
      → all_of (dormant id) w.integration_credentials ≡ true
      → (authenticate_secret mode host secret surface (after_calls cs w)).0 ≡ ok m
      → lets_in id m ≡ false
  authenticate_secret-lets_in id secret surface mode host cs w m fresh dead e =
      let still = after_calls-Dead id w.ids_drawn fresh cs w (omega arith, dead) in
      (Refused-authenticate_secret id mode host secret surface).at _ still.1 m e
