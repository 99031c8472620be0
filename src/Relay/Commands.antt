-- ===== src/Relay/Commands.antt =====
-- `interrupt_job` and `compact_job` of app/services/relay_engine.py.
use codex_collaboration_coor.Common.{
  String, ◌<>◌, Bool, true, false, ◌||◌, Option, none, some, if◌then◌else◌, or_else, is_text,
}
use codex_collaboration_coor.Common.Json.{str, obj, end, field, or_null}
use codex_collaboration_coor.Exec.{Exec, pure, some_or_raise, lookup_error, ◌>>=◌, ◌>>◌}
use codex_collaboration_coor.Store.{World}
use codex_collaboration_coor.Store.Statuses.{JobStatus, completed, failed, canceled}
use codex_collaboration_coor.Store.Records.{
  JobRecord, SessionRecord, AgentRecord, ThreadMappingRecord,
}
use codex_collaboration_coor.Store.Env.{Env, utc_now, call_bridge, unwrap_result}
use codex_collaboration_coor.Store.Table.{get, update}
use codex_collaboration_coor.Store.Repositories.{job_repository, agent_repository}
use codex_collaboration_coor.Events.{record_session_event, record_job_event}
use codex_collaboration_coor.Threads.{get_thread}
use codex_collaboration_coor.LoopGuard.{get_session}
use codex_collaboration_coor.Approvals.{get_job}
use codex_collaboration_coor.Relay.Result.{RelayExecutionResult}

abbrev thread_id_of : Option ThreadMappingRecord → Option String
thread_id_of none = none
thread_id_of (some m) = some m.codex_thread_id

-- `job.status in {"canceled", "completed", "failed"}`
abbrev pub is_finished : JobStatus → Bool
is_finished canceled = true
is_finished completed = true
is_finished failed = true
is_finished _ = false

-- `is_finished` of the status, or `job.last_known_turn_status == "interrupted"`
abbrev pub is_over : JobRecord → Bool
is_over job = is_finished job.status || is_text job.last_known_turn_status "interrupted"

abbrev command_result : JobRecord → Option String → Option String → String → RelayExecutionResult
command_result job thread_id turn_id event_type = record {
  job_id = job.id;
  session_id = job.session_id;
  agent_id = job.assigned_agent_id;
  thread_id = thread_id;
  turn_id = turn_id;
  message_id = none;
  event_type = event_type;
}

-- `job.active_turn_id or thread_id`
abbrev turn_to_interrupt : JobRecord → String → String
turn_to_interrupt job thread_id = or_else job.active_turn_id thread_id

module _ ⦃env : Env⦄ where
  unfoldable pub get_agent : String → Exec World AgentRecord
  get_agent agent_id = do
    found ← get agent_repository agent_id
    some_or_raise (lookup_error ("Agent not found: " <> agent_id)) found

  unfoldable pub own_or_mapped : JobRecord → Option String → Exec World (Option String)
  own_or_mapped job (some thread_id) = pure (some thread_id)
  own_or_mapped job none = do
    mapped ← get_thread job.session_id job.assigned_agent_id
    pure (thread_id_of mapped)

  -- The thread of a job: its own, or the one mapped to its session and agent.
  unfoldable pub thread_of_job : JobRecord → Exec World (Option String)
  thread_of_job job = own_or_mapped job job.codex_thread_id

  unfoldable pub interrupt_turn :
      JobRecord → SessionRecord → AgentRecord → Option String → Exec World RelayExecutionResult
  interrupt_turn job session agent reason = do
    found ← thread_of_job job
    thread_id ← some_or_raise (lookup_error ("No Codex thread mapped for job " <> job.id)) found
    let turn_id = turn_to_interrupt job thread_id
    now ← utc_now
    answer ← call_bridge "turn_interrupt" (
        obj (
          field "session_id" (str job.session_id) (
            field "job_id" (str job.id) (
              field "turn_id" (str turn_id)
                (field "thread_id" (str thread_id) (field "reason" (or_null reason) end))))))
    let updated_job = record job {
      status = canceled;
      last_known_turn_status = some "interrupted";
      completed_at = some now;
      updated_at = now;
    }
    update job_repository updated_job
    record_job_event updated_job "turn.interrupted"
        (field "thread_id" (str thread_id) (
          field "turn_id" (str turn_id)
            (field "reason" (or_null reason) (field "bridge" (obj (unwrap_result answer)) end))))
        now
    record_session_event session.id "command.interrupt" (some "agent") (some agent.id)
        (field "job_id" (str job.id) (
          field "thread_id" (str thread_id)
            (field "turn_id" (str turn_id) (field "reason" (or_null reason) end))))
        now
    pure (command_result job (some thread_id) (some turn_id) "turn.interrupted")

  -- The early return for a job that has ended or was interrupted before.
  unfoldable pub already_interrupted : JobRecord → Exec World RelayExecutionResult
  already_interrupted job = do
    thread_id ← thread_of_job job
    pure (command_result job thread_id job.active_turn_id "turn.interrupted")

  unfoldable pub interrupt_job : String → Option String → Exec World RelayExecutionResult
  interrupt_job job_id reason = do
    job ← get_job job_id
    session ← get_session job.session_id
    agent ← get_agent job.assigned_agent_id
    if is_over job then already_interrupted job else interrupt_turn job session agent reason

  unfoldable pub compact_job : String → Option String → Exec World RelayExecutionResult
  compact_job job_id reason = do
    job ← get_job job_id
    session ← get_session job.session_id
    agent ← get_agent job.assigned_agent_id
    found ← thread_of_job job
    thread_id ← some_or_raise (lookup_error ("No Codex thread mapped for job " <> job.id)) found
    now ← utc_now
    answer ← call_bridge "thread_compact_start" (
        obj (
          field "session_id" (str job.session_id) (
            field "job_id" (str job.id)
              (field "thread_id" (str thread_id) (field "reason" (or_null reason) end)))))
    let updated_job = record job { last_known_turn_status = some "compacted"; updated_at = now }
    update job_repository updated_job
    record_job_event updated_job "thread.compact.start"
        (field "thread_id" (str thread_id)
          (field "reason" (or_null reason) (field "bridge" (obj (unwrap_result answer)) end)))
        now
    record_session_event session.id "command.compact" (some "agent") (some agent.id)
        (field "job_id" (str job.id)
          (field "thread_id" (str thread_id) (field "reason" (or_null reason) end)))
        now
    pure (command_result job (some thread_id) job.active_turn_id "thread.compact.start")
