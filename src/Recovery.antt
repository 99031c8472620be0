-- ===== src/Recovery.antt =====
-- The queued jobs and the thread mappings of app/services/recovery.py; the stale runtimes are not
-- modelled.
pub mod Edges
use codex_collaboration_coor.Common.{
  ℕ, suc, String, ◌<>◌, ◌&&◌, Bool, true, false, not, Option, none, some, List, [], ◌∷◌,
  if◌then◌else◌, one_of, or_option,
}
use codex_collaboration_coor.Common.Json.{str, end, field}
use codex_collaboration_coor.Exec.{Exec, pure, ◌>>=◌, ◌>>◌, catch}
use codex_collaboration_coor.Store.{World}
use codex_collaboration_coor.Store.Statuses.{
  JobStatus, completed, failed, canceled, paused_by_loop_guard, is_queued, is_dispatchable,
}
use codex_collaboration_coor.Store.Records.{JobRecord, AgentRuntimeRecord}
use codex_collaboration_coor.Store.Env.{Env, utc_now}
use codex_collaboration_coor.Store.Table.{get}
use codex_collaboration_coor.Store.Repositories.{job_repository, list_jobs, list_runtimes}
use codex_collaboration_coor.Events.{record_session_event}
use codex_collaboration_coor.Threads.{upsert}
use codex_collaboration_coor.Relay.Execute.{execute_job}

-- `terminal_statuses`
abbrev pub is_terminal : JobStatus → Bool
is_terminal completed = true
is_terminal failed = true
is_terminal canceled = true
is_terminal paused_by_loop_guard = true
is_terminal _ = false

-- `refreshed is not None and refreshed.status != before_status`, where that was `queued`.
abbrev pub left_queue : Option JobRecord → Bool
left_queue none = false
left_queue (some job) = not (is_queued job.status)

abbrev pub count_if : Bool → ℕ → ℕ
count_if true n = suc n
count_if false n = n

abbrev pub agents_of : List AgentRuntimeRecord → List String
agents_of [] = []
agents_of (r ∷ rs) =
    if is_dispatchable r.runtime_status then r.agent_id ∷ agents_of rs else agents_of rs

module _ ⦃env : Env⦄ where
  -- The mapping of a job that has a thread.
  unfoldable pub rehydrate : JobRecord → String → Exec World (Unit {0})
  rehydrate job thread_id = do
    now ← utc_now
    upsert (record {
      id = "ctm_" <> job.id;
      session_id = job.session_id;
      agent_id = job.assigned_agent_id;
      runtime_id = or_option job.runtime_id job.codex_runtime_id;
      codex_thread_id = thread_id;
      is_active = true;
      created_at = job.created_at;
      updated_at = now;
    })
    at ← utc_now
    record_session_event job.session_id "recovery.thread_rehydrated" (some "system") none
        (field "job_id" (str job.id)
          (field "agent_id" (str job.assigned_agent_id) (field "thread_id" (str thread_id) end)))
        at
    pure tt

  -- One round of the loop over the jobs: whether a mapping was written.
  unfoldable pub recover_thread : JobRecord → Option String → Exec World Bool
  recover_thread job none = pure false
  recover_thread job (some thread_id) =
      if is_terminal job.status then pure false else rehydrate job thread_id >> pure true

  unfoldable pub recover_threads_of : List JobRecord → Exec World ℕ
  recover_threads_of [] = pure 0
  recover_threads_of (job ∷ jobs) = do
    recovered ← recover_thread job job.codex_thread_id
    n ← recover_threads_of jobs
    pure (count_if recovered n)

  unfoldable pub recover_thread_mappings : Exec World ℕ
  recover_thread_mappings = do jobs ← list_jobs; recover_threads_of jobs

  module _ (digits : ℕ → String) (max_relay_edges_per_agent : ℕ) where
    -- One round of the loop: relay the job, whatever is raised, and see whether it left the queue.
    unfoldable pub replay_job : JobRecord → Exec World Bool
    replay_job job = do
      catch tt (do execute_job digits max_relay_edges_per_agent job.id "startup_recovery"; pure tt)
      refreshed ← get job_repository job.id
      pure (left_queue refreshed)

    -- `job.status == "queued" and job.assigned_agent_id in active_agents`
    unfoldable pub replay_waiting : List String → JobRecord → Exec World Bool
    replay_waiting agents job =
        if is_queued job.status && one_of job.assigned_agent_id agents
        then replay_job job
        else pure false

    unfoldable pub replay_jobs : List String → List JobRecord → Exec World ℕ
    replay_jobs agents [] = pure 0
    replay_jobs agents (job ∷ jobs) = do
      replayed ← replay_waiting agents job
      n ← replay_jobs agents jobs
      pure (count_if replayed n)

    -- `if not active_agents: return 0`
    unfoldable pub replay_for : List String → Exec World ℕ
    replay_for [] = pure 0
    replay_for (a ∷ rest) = do jobs ← list_jobs; replay_jobs (a ∷ rest) jobs

    unfoldable pub recover_queued_jobs : Exec World ℕ
    recover_queued_jobs = do runtimes ← list_runtimes; replay_for (agents_of runtimes)
