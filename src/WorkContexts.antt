-- ===== src/WorkContexts.antt =====
-- app/services/work_context_service.py, and the choice of a runtime that it shares with
-- app/services/runtime_pool_service.py.
pub mod Laws
use codex_collaboration_coor.Common.{
  String, ◌<>◌, ◌==◌, ◌&&◌, Option, none, some, List, [], ◌∷◌, select, first_some, or_option,
}
use codex_collaboration_coor.Exec.{Exec, pure, some_or_raise, lookup_error, ◌>>=◌}
use codex_collaboration_coor.Store.{World}
use codex_collaboration_coor.Store.Statuses.{is_dispatchable}
use codex_collaboration_coor.Store.Records.{AgentRuntimeRecord}
use codex_collaboration_coor.Store.Records.Pools.{
  WorkContextRecord, ContextStatus, active, recovered, OwnershipState, borrowed, owned,
}
use codex_collaboration_coor.Store.Env.{Env, utc_now, new_id}
use codex_collaboration_coor.Store.Table.{create, get, update}
use codex_collaboration_coor.Store.Repositories.{agent_repository, list_runtimes}
use codex_collaboration_coor.Store.Repositories.Pools.{work_context_repository, get_by_job}
use codex_collaboration_coor.Runtimes.{latest}

pub record WorkContextPlan : Type 0 where
  pub runtime_pool_id : String
  pub runtime_id : Option String
  pub workspace_path : Option String
  pub isolation_mode : String
  pub context_status : ContextStatus
  pub ownership_state : OwnershipState
  pub selection_reason : Option String
  pub failure_reason : Option String

-- The latest dispatchable runtime of the agent and kind, else the latest of them all.
unfoldable pub choose_runtime :
    String → String → List AgentRuntimeRecord → Option AgentRuntimeRecord
choose_runtime agent_id runtime_kind runtimes =
    let matching =
      select (λ r. r.agent_id == agent_id && r.runtime_kind == runtime_kind) runtimes in
    first_some (latest (select (λ r. is_dispatchable r.runtime_status) matching)) (latest matching)

unfoldable pub resolve_runtime : String → String → Exec World (Option AgentRuntimeRecord)
resolve_runtime agent_id runtime_kind = do
  runtimes ← list_runtimes
  pure (choose_runtime agent_id runtime_kind runtimes)

abbrev recovered_status : ContextStatus → ContextStatus
recovered_status active = active
recovered_status _ = recovered

abbrev recovered_ownership : OwnershipState → OwnershipState
recovered_ownership borrowed = borrowed
recovered_ownership _ = owned

module _ ⦃env : Env⦄ where
  -- The context as it is written: a new one, or the job's own with its id, key and creation time.
  abbrev pub planned_context :
      String
      → String
      → String
      → WorkContextPlan
      → String
      → String
      → String
      → String
      → WorkContextRecord
  planned_context job_id session_id agent_id plan id context_key created_at now = record {
    id = id;
    session_id = session_id;
    job_id = job_id;
    agent_id = agent_id;
    runtime_pool_id = plan.runtime_pool_id;
    runtime_id = plan.runtime_id;
    context_key = context_key;
    workspace_path = plan.workspace_path;
    isolation_mode = plan.isolation_mode;
    context_status = plan.context_status;
    ownership_state = plan.ownership_state;
    selection_reason = plan.selection_reason;
    failure_reason = plan.failure_reason;
    created_at = created_at;
    updated_at = now;
  }

  unfoldable pub write_context :
      String
      → String
      → String
      → WorkContextPlan
      → Option WorkContextRecord
      → String
      → Exec World WorkContextRecord
  write_context job_id session_id agent_id plan none now = do
    id ← new_id "wcx_"
    create work_context_repository
        (planned_context job_id session_id agent_id plan id ("ctx_" <> job_id) now now)
  write_context job_id session_id agent_id plan (some existing) now =
      update work_context_repository (
        planned_context job_id session_id agent_id plan existing.id existing.context_key
          existing.created_at now)

  unfoldable pub create_or_update_context :
      String → String → String → WorkContextPlan → Exec World WorkContextRecord
  create_or_update_context job_id session_id agent_id plan = do
    existing ← get_by_job job_id
    now ← utc_now
    write_context job_id session_id agent_id plan existing now

  unfoldable pub build_workspace_path : AgentRuntimeRecord → String → String → Option String
  build_workspace_path runtime session_id job_id = elim runtime.workspace_path [
    | none ↦ none
    | some path ↦ some (env.join_path (path ∷ ".codex" ∷ session_id ∷ job_id ∷ []))
  ]

  unfoldable pub rebound : WorkContextRecord → AgentRuntimeRecord → String → WorkContextRecord
  rebound context runtime now = record context {
    runtime_id = some runtime.id;
    workspace_path =
        or_option context.workspace_path
          (build_workspace_path runtime context.session_id context.job_id);
    context_status = recovered_status context.context_status;
    ownership_state = recovered_ownership context.ownership_state;
    failure_reason = none;
    updated_at = now;
  }

  unfoldable pub rebind :
      WorkContextRecord → Option AgentRuntimeRecord → Exec World WorkContextRecord
  rebind context none = pure context
  rebind context (some runtime) = do
    now ← utc_now
    update work_context_repository (rebound context runtime now)

  unfoldable pub recover_context : String → Exec World WorkContextRecord
  recover_context context_id = do
    found ← get work_context_repository context_id
    context ← some_or_raise (lookup_error ("Work context not found: " <> context_id)) found
    owner ← get agent_repository context.agent_id
    agent ← some_or_raise (lookup_error ("Agent not found: " <> context.agent_id)) owner
    runtime ← resolve_runtime context.agent_id agent.runtime_kind
    rebind context runtime
