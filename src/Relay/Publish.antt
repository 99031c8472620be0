-- ===== src/Relay/Publish.antt =====
-- What `execute_job` of app/services/relay_engine.py writes after a turn.
use codex_collaboration_coor.Common.{String, Option, none, some, List, [], ◌∷◌, if◌then◌else◌}
use codex_collaboration_coor.Common.Json.{Items, str, arr, nil, cons, end, field, or_null}
use codex_collaboration_coor.Exec.{Exec, pure, ◌>>=◌, ◌>>◌}
use codex_collaboration_coor.Store.{World}
use codex_collaboration_coor.Store.Records.{
  JobRecord, SessionRecord, AgentRecord, MessageRecord, RelayEdgeRecord, ArtifactRecord,
  ApprovalRequestRecord,
}
use codex_collaboration_coor.Store.Env.{Env, new_id}
use codex_collaboration_coor.Store.Table.{create, update}
use codex_collaboration_coor.Store.Repositories.{
  job_repository, session_repository, message_repository, relay_edge_repository,
}
use codex_collaboration_coor.Events.{record_session_event, record_job_event}
use codex_collaboration_coor.Artifacts.{create_artifacts_from_turn}
use codex_collaboration_coor.Approvals.{create_request}
use codex_collaboration_coor.Relay.Result.{RelayExecutionResult}
use codex_collaboration_coor.Relay.Turn.{Turn, job_after_turn, needs_approval}

abbrev artifact_ids : List ArtifactRecord → Items
artifact_ids [] = nil
artifact_ids (a ∷ rest) = cons (str a.id) (artifact_ids rest)

abbrev approval_id_of : Option ApprovalRequestRecord → Option String
approval_id_of none = none
approval_id_of (some a) = some a.id

module _ ⦃env : Env⦄ where
  unfoldable pub publish_output_message :
      SessionRecord
      → JobRecord
      → AgentRecord
      → String
      → Option String
      → String
      → Exec World MessageRecord
  publish_output_message session job agent content reply_to_message_id created_at = do
    id ← new_id "msg_"
    created ← create message_repository (record {
      id = id;
      session_id = session.id;
      channel_key = job.channel_key;
      sender_type = "agent";
      sender_id = some job.assigned_agent_id;
      message_type = "relay";
      content = content;
      content_format = "plain_text";
      reply_to_message_id = reply_to_message_id;
      source_message_id = job.source_message_id;
      visibility = "session";
      created_at = created_at;
      updated_at = created_at;
    })
    update session_repository
        (record session { last_message_at = some created_at; updated_at = created_at })
    record_session_event session.id "message.created" (some "agent") (some agent.id)
        (field "message_id" (str created.id) (
          field "job_id" (str job.id) (
            field "thread_id" (or_null job.codex_thread_id) (
              field "turn_id" (or_null job.active_turn_id)
                (field "message_type" (str "relay") end)))))
        created_at
    pure created

  unfoldable pub record_relay_edge : JobRecord → String → String → Exec World RelayEdgeRecord
  record_relay_edge job relay_reason created_at = do
    id ← new_id "red_"
    create relay_edge_repository (record {
      id = id;
      session_id = job.session_id;
      source_message_id = job.source_message_id;
      source_job_id = job.parent_job_id;
      target_agent_id = job.assigned_agent_id;
      target_job_id = some job.id;
      relay_reason = relay_reason;
      hop_number = job.hop_count;
      created_at = created_at;
    })

  -- `approval_request`: one is made where the turn asks for input.
  unfoldable pub request_approval : JobRecord → Turn → Exec World (Option ApprovalRequestRecord)
  request_approval job turn =
      if needs_approval turn.status
      then (do
        created ← create_request job turn.status turn.payload none turn.at
        pure (some created))
      else pure none

  -- Everything after the turn: the job, its events, the approval, the artifacts and the message.
  unfoldable pub publish_turn :
      JobRecord → SessionRecord → AgentRecord → String → Turn → Exec World RelayExecutionResult
  publish_turn job session agent relay_reason turn = do
    let updated_job = job_after_turn job turn
    update job_repository updated_job
    record_job_event updated_job "turn.started"
        (field "thread_id" (str turn.thread.codex_thread_id)
          (field "turn_id" (str turn.id) (field "relay_reason" (str relay_reason) end)))
        turn.at
    approval_request ← request_approval updated_job turn
    artifacts ← create_artifacts_from_turn updated_job turn.payload turn.at
    message ←
        publish_output_message session updated_job agent turn.text job.source_message_id turn.at
    let outcome = field "thread_id" (str turn.thread.codex_thread_id) (
        field "turn_id" (str turn.id) (
          field "relay_reason" (str relay_reason) (
            field "artifact_ids" (arr (artifact_ids artifacts))
              (field "approval_id" (or_null (approval_id_of approval_request)) end))))
    record_job_event updated_job "relay.output.published"
        (field "message_id" (str message.id) outcome) turn.at
    record_relay_edge updated_job relay_reason turn.at
    record_session_event session.id "relay.output.published" (some "agent") (some agent.id)
        (field "job_id" (str updated_job.id) (field "message_id" (str message.id) outcome)) turn.at
    pure (record {
      job_id = updated_job.id;
      session_id = updated_job.session_id;
      agent_id = updated_job.assigned_agent_id;
      thread_id = some turn.thread.codex_thread_id;
      turn_id = some turn.id;
      message_id = some message.id;
      event_type = "relay.output.published";
    })
