-- ===== src/Relay/Turn.antt =====
-- One turn on the Codex bridge, in app/services/relay_engine.py.
use codex_collaboration_coor.Common.{
  String, ◌<>◌, ◌==◌, Bool, ◌||◌, Option, none, some, if◌then◌else◌, or_else, or_option, or_now,
}
use codex_collaboration_coor.Common.Json.{
  Json, Fields, str, obj, end, field, get as get_key, as_str, or_json, not_null, or_null,
}
use codex_collaboration_coor.Exec.{Exec, pure, ◌>>=◌}
use codex_collaboration_coor.Store.{World}
use codex_collaboration_coor.Store.Statuses.{
  JobStatus, running, input_required, auth_required, completed,
}
use codex_collaboration_coor.Store.Records.{JobRecord, ThreadMappingRecord}
use codex_collaboration_coor.Store.Env.{Env, utc_now, new_id, call_bridge, text_of, unwrap_result}
use codex_collaboration_coor.Threads.{get_or_create_thread}
use codex_collaboration_coor.Artifacts.{first_of_two, first_text, text_keys, stripped}

-- `_extract_text`
unfoldable pub extract_text : Fields → JobRecord → String
extract_text payload job =
    elim (first_of_two (first_text text_keys payload)
      (stripped (as_str (get_key payload "value")))) [
        | none ↦ "Working on " <> job.title
        | some text ↦ text
      ]

-- The job status after a turn with this status.
unfoldable pub status_of_turn : String → JobStatus
status_of_turn turn_status =
    if turn_status == "completed"
    then completed
    else if turn_status == "input_required"
    then input_required
    else if turn_status == "auth_required"
    then auth_required
    else running

-- `turn_status in {"input_required", "auth_required"}`
abbrev pub needs_approval : String → Bool
needs_approval turn_status = turn_status == "input_required" || turn_status == "auth_required"

-- What a turn answered.
pub record Turn : Type 0 where
  pub payload : Fields
  pub id : String
  pub text : String
  pub status : String
  pub thread : ThreadMappingRecord
  pub at : String

-- `replace(job, ...)` after a turn.
unfoldable pub job_after_turn : JobRecord → Turn → JobRecord
job_after_turn job turn = record job {
  runtime_id = or_option job.runtime_id turn.thread.runtime_id;
  codex_runtime_id = or_option job.codex_runtime_id turn.thread.runtime_id;
  codex_thread_id = some turn.thread.codex_thread_id;
  active_turn_id = some turn.id;
  last_known_turn_status = some turn.status;
  status = status_of_turn turn.status;
  started_at = or_now job.started_at turn.at;
  completed_at = if turn.status == "completed" then some turn.at else job.completed_at;
  updated_at = turn.at;
}

module _ ⦃env : Env⦄ where
  -- `turn.get("id") or turn.get("turn_id")` of a dict.
  abbrev nested_turn_id : Option Json → Option Json
  nested_turn_id (some (obj turn)) = not_null (or_json (get_key turn "id") (get_key turn "turn_id"))
  nested_turn_id _ = none

  abbrev text_or : Option Json → String → String
  text_or none fallback = fallback
  text_or (some v) fallback = text_of v

  -- `_extract_turn_id`
  unfoldable pub extract_turn_id : Fields → String → String
  extract_turn_id payload fallback = elim (nested_turn_id (get_key payload "turn")) [
    | some v ↦ text_of v
    | none ↦
        text_or (not_null (or_json (get_key payload "turn_id") (get_key payload "active_turn_id")))
          fallback
  ]

  -- `str(turn_payload.get("status", "running"))`
  unfoldable pub turn_status_of : Fields → String
  turn_status_of payload = text_or (get_key payload "status") "running"

  -- The thread of the job and one turn on it.
  unfoldable pub start_turn : JobRecord → Exec World Turn
  start_turn job = do
    mapped ← get_or_create_thread job.session_id job.assigned_agent_id
    let mapping = mapped.0
    now ← utc_now
    turn_response ← call_bridge "turn_start" (
        obj (
          field "session_id" (str job.session_id) (
            field "job_id" (str job.id) (
              field "agent_id" (str job.assigned_agent_id) (
                field "thread_id" (str mapping.codex_thread_id) (
                  field "runtime_id" (or_null mapping.runtime_id) (
                    field "instructions" (str (or_else job.instructions job.title))
                      (field "source_message_id" (or_null job.source_message_id) end))))))))
    let turn_payload = unwrap_result turn_response
    fallback ← new_id "turn_"
    pure (record {
      payload = turn_payload;
      id = extract_turn_id turn_payload fallback;
      text = extract_text turn_payload job;
      status = turn_status_of turn_payload;
      thread = mapping;
      at = now;
    })
