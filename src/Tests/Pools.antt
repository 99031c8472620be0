-- ===== src/Tests/Pools.antt =====
-- The built-in pools on the sample database.
use mathlib.Core.List.{Memᴰ}
use codex_collaboration_coor.Common.{
  Bool, true, false, none, some, [], ◌∷◌, ◌≡◌, refl, ◌⊎◌, ◌==◌, eq_iff,
}
use codex_collaboration_coor.Exec.{Outcome, ok, err, lookup_error}
use codex_collaboration_coor.Store.{World}
use codex_collaboration_coor.Store.Statuses.{queued}
use codex_collaboration_coor.Store.Records.Pools.{
  WorkContextRecord, active, fallback, owned, borrowed,
}
use codex_collaboration_coor.Pools.Select.{
  RuntimePoolDefinition, Selection, accepts, builtin_pools, general_shared, isolated_work,
  fall_back, select_pool, pool_is_at_capacity,
}
use codex_collaboration_coor.Pools.Choice.{HasKeys, select_pool-Memᴰ, select_pool-accepts}
use codex_collaboration_coor.Pools.Assign.{RuntimePoolPlan, Request}
use codex_collaboration_coor.Pools.Room.{plan_assignment-pool_is_at_capacity}
use codex_collaboration_coor.WorkContexts.{WorkContextPlan, create_or_update_context}
use codex_collaboration_coor.WorkContexts.Laws.{
  get_by_job-create_or_update_context, context_of_job, Identity,
}
use codex_collaboration_coor.Store.Repositories.Pools.{get_by_job}
use codex_collaboration_coor.Samples.{sample_env, world_with}
use codex_collaboration_coor.Tests.{result}

abbrev always : RuntimePoolDefinition → Bool
always p = true

-- The isolated pool is full.
abbrev full_isolated : RuntimePoolDefinition → Bool
full_isolated p = p.pool_key == "isolated_work"

other_keys : general_shared.pool_key ≡ isolated_work.pool_key → ⊥
other_keys h = let e : false ≡ true = (eq_iff "general_shared" "isolated_work").1 h in absurd (cc e)

HasKeys-builtin_pools : HasKeys builtin_pools
HasKeys-builtin_pools p q (Memᴰ.head d) (Memᴰ.head e) same = cc (d, e)
HasKeys-builtin_pools p q (Memᴰ.head d) (Memᴰ.tail (Memᴰ.head e)) same =
    absurd (other_keys (cc (d, e, same)))
HasKeys-builtin_pools p q (Memᴰ.head d) (Memᴰ.tail (Memᴰ.tail m)) same = elim m [ ]
HasKeys-builtin_pools p q (Memᴰ.tail (Memᴰ.head d)) (Memᴰ.head e) same =
    absurd (other_keys (cc (d, e, same)))
HasKeys-builtin_pools p q (Memᴰ.tail (Memᴰ.head d)) (Memᴰ.tail (Memᴰ.head e)) same = cc (d, e)
HasKeys-builtin_pools p q (Memᴰ.tail (Memᴰ.head d)) (Memᴰ.tail (Memᴰ.tail m)) same = elim m [ ]
HasKeys-builtin_pools p q (Memᴰ.tail (Memᴰ.tail m)) n same = elim m [ ]

select_pool-Memᴰ_example :
    ((builtin_pools ≡ [])
      × (select_pool builtin_pools always full_isolated (some "isolated_work")
          ≡ err (lookup_error "No runtime pools available.")))
    ⊎ ((s : Selection) × (select_pool builtin_pools always full_isolated (some "isolated_work")
          ≡ ok (some s))
        × Memᴰ s.pool builtin_pools)
select_pool-Memᴰ_example =
    select_pool-Memᴰ builtin_pools always full_isolated (some "isolated_work")

select_pool-accepts_example : accepts always full_isolated general_shared ≡ true
unfolding result
select_pool-accepts_example =
    select_pool-accepts builtin_pools always full_isolated HasKeys-builtin_pools
      (some "isolated_work") general_shared (fall_back always full_isolated general_shared) refl
      refl refl

abbrev request : Request
request = record {
  job_id = "job_1";
  session_id = "ses_1";
  agent_id = "agt_1";
  preferred_pool_key = some "isolated_work";
  required_capabilities = none;
  runtime_id = none;
}

-- The isolated pool has its one context.
abbrev busy_context : WorkContextRecord
busy_context = record {
  id = "wcx_1";
  session_id = "ses_1";
  job_id = "job_2";
  agent_id = "agt_1";
  runtime_pool_id = "rpl_isolated_work";
  runtime_id = none;
  context_key = "ctx_job_2";
  workspace_path = none;
  isolation_mode = "isolated";
  context_status = active;
  ownership_state = owned;
  selection_reason = none;
  failure_reason = none;
  created_at = "then";
  updated_at = "then";
}

abbrev busy_world : World
busy_world = record (world_with queued) { work_contexts = busy_context ∷ [] }

abbrev fallback_plan : RuntimePoolPlan
fallback_plan = record {
  pool = general_shared;
  runtime_id = some "rt_1";
  workspace_path = none;
  isolation_mode = "shared";
  context_status = fallback;
  ownership_state = borrowed;
  selection_reason = some "Fallback to pool general_shared because the selected pool is full.";
  fallback_used = true;
  runtime_found = true;
  failure_reason = none;
}

plan_assignment-pool_is_at_capacity_example :
    pool_is_at_capacity busy_world.work_contexts general_shared ≡ false
unfolding result
plan_assignment-pool_is_at_capacity_example =
    plan_assignment-pool_is_at_capacity ⦃env = sample_env⦄ busy_world request HasKeys-builtin_pools
      fallback_plan refl refl refl

abbrev plan : WorkContextPlan
plan = record {
  runtime_pool_id = "rpl_general_shared";
  runtime_id = some "rt_1";
  workspace_path = none;
  isolation_mode = "shared";
  context_status = active;
  ownership_state = owned;
  selection_reason = none;
  failure_reason = none;
}

abbrev planned : Outcome WorkContextRecord × World
planned = create_or_update_context ⦃env = sample_env⦄ "job_2" "ses_1" "agt_1" plan busy_world

abbrev moved_context : WorkContextRecord
moved_context = record busy_context {
  runtime_pool_id = "rpl_general_shared";
  runtime_id = some "rt_1";
  isolation_mode = "shared";
  updated_at = "now";
}

get_by_job-create_or_update_context_example :
    (get_by_job "job_2" planned.1 ≡ (ok (some moved_context), planned.1))
    × (moved_context.runtime_id ≡ plan.runtime_id)
    × (moved_context.context_status ≡ plan.context_status)
    × Identity "job_2" (context_of_job "job_2" busy_world.work_contexts) moved_context
unfolding result
get_by_job-create_or_update_context_example =
    get_by_job-create_or_update_context ⦃env = sample_env⦄ "job_2" "ses_1" "agt_1" plan busy_world
      moved_context planned.1 refl

chosen :
    select_pool builtin_pools always full_isolated (some "isolated_work")
    ≡ ok (some (fall_back always full_isolated general_shared))
unfolding result
chosen = refl
