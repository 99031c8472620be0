-- ===== src/Pools/Diagnostics.antt =====
-- The aggregate report on the pools of app/services/runtime_pool_service.py. Telemetry is left out.
use codex_collaboration_coor.Common.{
  ℕ, String, ◌==◌, ◌&&◌, Option, List, map, select, count_of, length, if◌then◌else◌,
}
use codex_collaboration_coor.Common.Int.{ℤ, pos, lt_int}
use codex_collaboration_coor.Exec.{Exec, pure, ◌>>=◌}
use codex_collaboration_coor.Store.{World}
use codex_collaboration_coor.Store.Statuses.{is_dispatchable}
use codex_collaboration_coor.Store.Records.{AgentRuntimeRecord}
use codex_collaboration_coor.Store.Records.Pools.{
  WorkContextRecord, is_waiting, is_owned, is_borrowed, is_released,
}
use codex_collaboration_coor.Store.Env.{Env, utc_now}
use codex_collaboration_coor.Store.Repositories.{list_runtimes}
use codex_collaboration_coor.Store.Repositories.Pools.{list_contexts}
use codex_collaboration_coor.Pools.Select.{RuntimePoolDefinition, list_pools, active_contexts}

-- The counts of one pool, beside its definition. A ratio is its two terms, and `none` is 0.0.
pub record PoolResponse : Type 0 where
  pub pool : RuntimePoolDefinition
  pub active_context_count : ℕ
  pub waiting_context_count : ℕ
  pub borrowed_context_count : ℕ
  pub available_runtime_count : ℕ
  pub utilization_ratio : Option (ℕ × ℤ)

unfoldable pub pool_response :
    List WorkContextRecord → List AgentRuntimeRecord → RuntimePoolDefinition → PoolResponse
pool_response contexts runtimes pool =
    let matching = select (λ c. c.runtime_pool_id == pool.id) contexts in
    let active = active_contexts pool.id contexts in
    record {
      pool = pool;
      active_context_count = active;
      waiting_context_count = count_of (λ c. is_waiting c.context_status) matching;
      borrowed_context_count = count_of (λ c. is_borrowed c.ownership_state) matching;
      available_runtime_count =
          count_of (λ r. r.runtime_kind == pool.runtime_kind && is_dispatchable r.runtime_status)
            runtimes;
      utilization_ratio =
          if lt_int (pos 0) pool.max_active_contexts
          then Option.some (active, pool.max_active_contexts)
          else Option.none;
    }

pub record PoolDiagnostics : Type 0 where
  pub generated_at : String
  pub total_pools : ℕ
  pub total_contexts : ℕ
  pub owned_contexts : ℕ
  pub borrowed_contexts : ℕ
  pub released_contexts : ℕ
  pub pools : List PoolResponse

module _ ⦃env : Env⦄ where
  unfoldable pub get_pool_diagnostics : Exec World PoolDiagnostics
  get_pool_diagnostics = do
    pools ← list_pools
    contexts ← list_contexts
    runtimes ← list_runtimes
    now ← utc_now
    pure (record {
      generated_at = now;
      total_pools = length pools;
      total_contexts = length contexts;
      owned_contexts = count_of (λ c. is_owned c.ownership_state) contexts;
      borrowed_contexts = count_of (λ c. is_borrowed c.ownership_state) contexts;
      released_contexts = count_of (λ c. is_released c.ownership_state) contexts;
      pools = map (pool_response contexts runtimes) pools;
    })
