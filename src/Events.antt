-- ===== src/Events.antt =====
-- app/services/session_events.py, and the job events that every job service writes.
pub mod Keeps
use codex_collaboration_coor.Common.{String, Option, some}
use codex_collaboration_coor.Common.Json.{Fields, obj}
use codex_collaboration_coor.Exec.{Exec, ◌>>=◌}
use codex_collaboration_coor.Store.{World}
use codex_collaboration_coor.Store.Records.{JobRecord, JobEventRecord, SessionEventRecord}
use codex_collaboration_coor.Store.Env.{Env, new_id}
use codex_collaboration_coor.Store.Table.{create}
use codex_collaboration_coor.Store.Repositories.{job_event_repository, session_event_repository}

module _ ⦃env : Env⦄ where
  -- `record_session_event` with a payload and a time.
  unfoldable pub record_session_event :
      String
      → String
      → Option String
      → Option String
      → Fields
      → String
      → Exec World SessionEventRecord
  record_session_event session_id event_type actor_type actor_id payload created_at = do
    id ← new_id "evt_"
    create session_event_repository (record {
      id = id;
      session_id = session_id;
      event_type = event_type;
      actor_type = actor_type;
      actor_id = actor_id;
      event_payload_json = some (env.dumps (obj payload));
      created_at = created_at;
    })

  -- `_record_job_event`
  unfoldable pub record_job_event : JobRecord → String → Fields → String → Exec World JobEventRecord
  record_job_event job event_type payload created_at = do
    id ← new_id "jbe_"
    create job_event_repository (record {
      id = id;
      job_id = job.id;
      session_id = job.session_id;
      event_type = event_type;
      event_payload_json = some (env.dumps (obj payload));
      created_at = created_at;
    })
