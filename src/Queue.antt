-- ===== src/Queue.antt =====
-- app/services/offline_queue.py
pub mod Held
use codex_collaboration_coor.Common.{
  ℕ, String, ◌<>◌, ◌==◌, Bool, true, false, ◌&&◌, Option, none, some, List, [], ◌∷◌, if◌then◌else◌,
  select, or_else, is_text,
}
use codex_collaboration_coor.Common.Json.{Fields, str, obj, end, field, or_null}
use codex_collaboration_coor.Exec.{Exec, pure, raise, value_error, ◌>>=◌, ◌>>◌, catch}
use codex_collaboration_coor.Store.{World}
use codex_collaboration_coor.Store.Statuses.{
  JobStatus, input_required, auth_required, failed, canceled, paused_by_loop_guard, is_queued,
  is_dispatchable, status_text,
}
use codex_collaboration_coor.Store.Records.{JobRecord, JobInputRecord, AgentRuntimeRecord}
use codex_collaboration_coor.Store.Env.{Env, utc_now, new_id}
use codex_collaboration_coor.Store.Table.{create, update}
use codex_collaboration_coor.Store.Repositories.{
  job_repository, job_input_repository, list_jobs_by_agent,
}
use codex_collaboration_coor.Runtimes.{get_latest_runtime_for_agent}
use codex_collaboration_coor.Rules.{resolve_job_dispatch}
use codex_collaboration_coor.Approvals.{get_job}
use codex_collaboration_coor.Relay.Result.{RelayExecutionResult}
use codex_collaboration_coor.Relay.Execute.{execute_job}

pub record OfflineQueueDispatchResult : Type 0 where
  pub job_id : String
  pub queued : Bool
  pub relay_result : Option RelayExecutionResult

-- RETRYABLE_JOB_STATUSES
abbrev pub is_retryable : JobStatus → Bool
is_retryable failed = true
is_retryable canceled = true
is_retryable paused_by_loop_guard = true
is_retryable _ = false

-- RESUMABLE_JOB_STATUSES
abbrev pub is_resumable : JobStatus → Bool
is_resumable JobStatus.queued = true
is_resumable input_required = true
is_resumable auth_required = true
is_resumable paused_by_loop_guard = true
is_resumable _ = false

-- `_is_duplicate_control_action`
abbrev pub is_duplicate : JobRecord → String → Bool
is_duplicate job marker = is_queued job.status && is_text job.last_known_turn_status marker

abbrev pub kept_in_queue : String → OfflineQueueDispatchResult
kept_in_queue job_id = record { job_id = job_id; queued = true; relay_result = none }

abbrev pub runs : Option AgentRuntimeRecord → Bool
runs none = false
runs (some runtime) = is_dispatchable runtime.runtime_status

unfoldable pub is_agent_dispatchable : String → Exec World Bool
is_agent_dispatchable agent_id = do
  runtime ← get_latest_runtime_for_agent agent_id
  pure (runs runtime)

abbrev pub retried : JobRecord → String → JobRecord
retried job now = record job {
  status = JobStatus.queued;
  last_known_turn_status = some "retry_requested";
  error_code = none;
  error_message = none;
  completed_at = none;
  updated_at = now;
}

abbrev pub resumed : JobRecord → String → JobRecord
resumed job now = record job {
  status = JobStatus.queued;
  last_known_turn_status = some "resumed";
  completed_at = none;
  updated_at = now;
}

abbrev pub with_result :
    Option RelayExecutionResult → List RelayExecutionResult → List RelayExecutionResult
with_result none results = results
with_result (some r) results = r ∷ results

module _ ⦃env : Env⦄ where
  abbrev dumped : Option Fields → Option String
  dumped none = none
  dumped (some fs) = some (env.dumps (obj fs))

  unfoldable pub record_input : JobRecord → String → Option Fields → Exec World JobInputRecord
  record_input job input_type input_payload = do
    created_at ← utc_now
    id ← new_id "jni_"
    create job_input_repository (record {
      id = id;
      job_id = job.id;
      session_id = job.session_id;
      input_type = input_type;
      input_payload_json = dumped input_payload;
      created_at = created_at;
    })

  -- `if dispatch_policy.channel_key != job.channel_key`
  unfoldable pub move_channel : JobRecord → String → Exec World JobRecord
  move_channel job channel_key =
      if channel_key == job.channel_key
      then pure job
      else update job_repository (record job { channel_key = channel_key })

  unfoldable pub block_job : JobRecord → Option String → Exec World OfflineQueueDispatchResult
  block_job job hold_reason = do
    now ← utc_now
    update job_repository (record job {
      status = input_required;
      last_known_turn_status = some (or_else hold_reason "rule_review_required");
      updated_at = now;
    })
    pure (kept_in_queue job.id)

  module _ (digits : ℕ → String) (max_relay_edges_per_agent : ℕ) where
    -- The end of `schedule_job`: relay the job if its agent has a running runtime.
    unfoldable pub dispatch_now : JobRecord → String → Exec World OfflineQueueDispatchResult
    dispatch_now job relay_reason = do
      dispatchable ← is_agent_dispatchable job.assigned_agent_id
      if dispatchable
          then (do
            relay_result ← execute_job digits max_relay_edges_per_agent job.id relay_reason
            pure (record { job_id = job.id; queued = false; relay_result = some relay_result }))
          else pure (kept_in_queue job.id)

    -- With a rule engine, as app/api/dependencies.py builds the service.
    unfoldable pub schedule_job :
        String → String → Option Fields → String → Exec World OfflineQueueDispatchResult
    schedule_job job_id input_type input_payload relay_reason = do
      job ← get_job job_id
      record_input job input_type input_payload
      policy ← resolve_job_dispatch job
      moved ← move_channel job policy.channel_key
      if policy.dispatch_allowed
          then dispatch_now moved relay_reason
          else block_job moved policy.hold_reason

    unfoldable pub retry_job : String → Option String → Exec World OfflineQueueDispatchResult
    retry_job job_id reason = do
      job ← get_job job_id
      if is_duplicate job "retry_requested"
          then pure (kept_in_queue job.id)
          else if is_retryable job.status
          then (do
            now ← utc_now
            update job_repository (retried job now)
            schedule_job job.id "retry"
                (some (
                  field "reason" (or_null reason)
                    (field "previous_status" (str (status_text job.status)) end)))
                "manual_relay")
          else raise (
              value_error
                ("Job " <> job.id <> " cannot be retried from status " <> status_text job.status))

    unfoldable pub resume_job : String → Option String → Exec World OfflineQueueDispatchResult
    resume_job job_id reason = do
      job ← get_job job_id
      if is_duplicate job "resumed"
          then pure (kept_in_queue job.id)
          else if is_resumable job.status
          then (do
            now ← utc_now
            update job_repository (resumed job now)
            schedule_job job.id "resume"
                (some (
                  field "reason" (or_null reason)
                    (field "previous_status" (str (status_text job.status)) end)))
                "manual_relay")
          else raise (
              value_error
                ("Job " <> job.id <> " cannot be resumed from status " <> status_text job.status))

    -- The `for` loop of `dispatch_pending_for_agent`: a job that raises is passed over.
    unfoldable pub relay_all : List JobRecord → Exec World (List RelayExecutionResult)
    relay_all [] = pure []
    relay_all (job ∷ jobs) = do
      done ← catch none (do
        r ← execute_job digits max_relay_edges_per_agent job.id "policy_auto_relay"
        pure (some r))
      rest ← relay_all jobs
      pure (with_result done rest)

    unfoldable pub dispatch_pending_for_agent : String → Exec World (List RelayExecutionResult)
    dispatch_pending_for_agent agent_id = do
      dispatchable ← is_agent_dispatchable agent_id
      if dispatchable
          then (do
            jobs ← list_jobs_by_agent agent_id
            relay_all (select (λ job. is_queued job.status) jobs))
          else pure []
