-- ===== src/Pools/Room.antt =====
-- The pool of a plan that `plan_assignment` of app/services/runtime_pool_service.py makes.
use codex_collaboration_coor.Common.{
  false, Option, none, some, List, [], ◌++◌, map, ◌≡◌, refl, arith,
}
use codex_collaboration_coor.Exec.{ok, err, Outcome, lift, gets, ◌>>=◌}
use codex_collaboration_coor.Exec.Ensures.{
  Ensures, Ensures-pure, Ensures-any, Ensures-kept, Ensures-bind,
}
use codex_collaboration_coor.Exec.Keeps.{Keeps-some_or_raise}
use codex_collaboration_coor.Store.{World}
use codex_collaboration_coor.Store.Records.{AgentRuntimeRecord}
use codex_collaboration_coor.Store.Env.{Env}
use codex_collaboration_coor.Store.Keeps.{Keeps-get}
use codex_collaboration_coor.Store.Table.Rows.{order_by}
use codex_collaboration_coor.Store.Repositories.{agent_repository}
use codex_collaboration_coor.Store.Repositories.Pools.{list_runtime_pools, pool_before}
use codex_collaboration_coor.Pools.Select.{
  RuntimePoolDefinition, Selection, builtin_pools, general_shared, record_to_definition, list_pools,
  default_pool, Capabilities, pool_supports_capabilities, pool_is_at_capacity,
}
use codex_collaboration_coor.Pools.Choice.{HasKeys, select_pool-accepts}
use codex_collaboration_coor.Pools.Assign.{
  Request, RuntimePoolPlan, normalize_capabilities, stopped_at, choose_pool, plan_with,
  plan_assignment,
}

stopped_at-ok :
    (o : Outcome (Option Selection)) {s : Selection} → stopped_at o ≡ ok s → o ≡ ok (some s)
stopped_at-ok (ok (some t)) h = cc h
stopped_at-ok (ok none) h = absurd (cc)
stopped_at-ok (err e) h = absurd (cc)

module _ ⦃env : Env⦄ (w : World) where
  -- The catalogue as `list_pools` returns it.
  abbrev pub catalogue : List RuntimePoolDefinition
  catalogue = builtin_pools ++ map record_to_definition (order_by pool_before w.runtime_pools)

  abbrev Here : World → Type 0
  Here now = now ≡ w

  module _ (r : Request) (keys : HasKeys catalogue) where
    choose_pool-accepts :
        (caps : Capabilities) (s : Selection)
        → normalize_capabilities r.required_capabilities ≡ []
        → pool_is_at_capacity w.work_contexts general_shared ≡ false
        → (choose_pool r caps w).0 ≡ ok s
        → pool_is_at_capacity w.work_contexts s.pool ≡ false
    unfolding choose_pool list_pools list_runtime_pools gets lift default_pool
        pool_supports_capabilities ◌>>=◌
    choose_pool-accepts caps s plain room e =
        let takes =
          select_pool-accepts catalogue
            (λ p.
              pool_supports_capabilities p caps (normalize_capabilities r.required_capabilities))
            (pool_is_at_capacity w.work_contexts) keys r.preferred_pool_key general_shared s refl
            (rw (plain, room) refl) (stopped_at-ok _ e) in
        ground (arith, takes)

    Ensures-choose_pool :
        (caps : Capabilities)
        → normalize_capabilities r.required_capabilities ≡ []
        → pool_is_at_capacity w.work_contexts general_shared ≡ false
        → Ensures Here
            (λ s now. pool_is_at_capacity w.work_contexts s.pool ≡ false)
            (choose_pool r caps)
    Ensures-choose_pool caps plain room = record {
      at = λ now here s e. choose_pool-accepts caps s plain room (rw here at e);
    }

    Ensures-plan_with :
        (s : Selection) (runtime : Option AgentRuntimeRecord)
        → pool_is_at_capacity w.work_contexts s.pool ≡ false
        → Ensures
            (λ _. Unit {0})
            (λ plan now. pool_is_at_capacity w.work_contexts plan.pool ≡ false)
            (plan_with r s runtime)
    unfolding plan_with
    Ensures-plan_with s runtime room =
        Ensures-bind _ _ _ (Ensures-any _) (λ path. Ensures-pure _ (λ now h. room))

    Ensures-plan_assignment :
        normalize_capabilities r.required_capabilities ≡ []
        → pool_is_at_capacity w.work_contexts general_shared ≡ false
        → Ensures Here
            (λ plan now. pool_is_at_capacity w.work_contexts plan.pool ≡ false)
            (plan_assignment r)
    unfolding plan_assignment
    Ensures-plan_assignment plain room =
        Ensures-bind (λ _. Here) _ _ (Ensures-kept _ (Keeps-get agent_repository _))
          (λ found.
            Ensures-bind (λ _. Here) _ _ (Ensures-kept _ (Keeps-some_or_raise _ found))
              (λ agent.
                Ensures-bind (λ s now. pool_is_at_capacity w.work_contexts s.pool ≡ false) _ _
                  (Ensures-choose_pool _ plain room)
                  (λ s. record {
                    at = λ now ok_pool plan e.
                        (Ensures-bind _ {P = λ _. Unit {0}} _ _ (Ensures-any _) (λ usual.
                            Ensures-bind _ _ _ (Ensures-any _)
                              (λ named. Ensures-plan_with s _ ok_pool))).at
                          now tt plan e;
                  })))

    -- If the key of a pool names it, the job asks for no capability and the shared pool has room,
    -- then the pool that `plan_assignment` returns has room: fewer contexts run in it than its limit,
    -- or it has no limit.
    pub plan_assignment-pool_is_at_capacity :
        (plan : RuntimePoolPlan)
        → normalize_capabilities r.required_capabilities ≡ []
        → pool_is_at_capacity w.work_contexts general_shared ≡ false
        → (plan_assignment r w).0 ≡ ok plan
        → pool_is_at_capacity w.work_contexts plan.pool ≡ false
    plan_assignment-pool_is_at_capacity plan plain room e =
        (Ensures-plan_assignment plain room).at w refl plan e
