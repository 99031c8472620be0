-- ===== src/Relay/Frame.antt =====
-- The actions of app/services/relay_engine.py and the tables that they write, up to the edge that a
-- turn ends with.
use codex_collaboration_coor.Common.{String, Option, none, some, ◌∷◌}
use codex_collaboration_coor.Common.Json.{Items, Fields, nil, cons, obj}
use codex_collaboration_coor.Exec.{◌>>=◌, pure}
use codex_collaboration_coor.Exec.Keeps.{Keeps, Keeps-pure, Keeps-bind, keeps_rules}
use codex_collaboration_coor.Store.{World}
use codex_collaboration_coor.Store.Records.{
  JobRecord, SessionRecord, AgentRecord, ThreadMappingRecord,
}
use codex_collaboration_coor.Store.Env.{Env}
use codex_collaboration_coor.Store.Repositories.{approval_repository}
use codex_collaboration_coor.Store.Keeps.{
  Unseen, Frame, Keeps-create, Keeps-get, Keeps-update, Keeps-list_runtimes, Keeps-utc_now,
  Keeps-new_id, Keeps-call_bridge,
}
use codex_collaboration_coor.Events.{record_session_event, record_job_event}
use codex_collaboration_coor.Runtimes.{get_latest_runtime_for_agent}
use codex_collaboration_coor.Threads.{
  get_thread, upsert, reuse_or_start, start_thread, resume_thread, get_or_create_thread,
}
use codex_collaboration_coor.LoopGuard.{get_session, pause_job}
use codex_collaboration_coor.Artifacts.{
  ArtifactFields, file_fields, bundle_of, create_artifact, create_files, create_artifacts_from_turn,
}
use codex_collaboration_coor.Approvals.{create_request}
use codex_collaboration_coor.Relay.Turn.{start_turn, Turn}
use codex_collaboration_coor.Relay.Publish.{publish_output_message, request_approval}

module _ {P : World → Type 0} (f : Frame P) ⦃env : Env⦄ where
  pub Keeps-record_session_event :
      (s e : String) (t a : Option String) (p : Fields) (at : String)
      → Keeps P (record_session_event s e t a p at)
  unfolding record_session_event
  Keeps-record_session_event s e t a p at =
      search (keeps_rules, Keeps-create, Keeps-new_id f, f.session_events)

  pub Keeps-record_job_event :
      (job : JobRecord) (e : String) (p : Fields) (at : String)
      → Keeps P (record_job_event job e p at)
  unfolding record_job_event
  Keeps-record_job_event job e p at =
      search (keeps_rules, Keeps-create, Keeps-new_id f, f.job_events)

  pub Keeps-pause_job : (job : JobRecord) (reason : String) → Keeps P (pause_job job reason)
  unfolding pause_job get_session
  Keeps-pause_job job reason =
      search
        (
          keeps_rules,
          Keeps-get,
          Keeps-update,
          Keeps-utc_now f,
          Keeps-record_session_event,
          Keeps-record_job_event,
          f.jobs,
          f.sessions,
        )
        depth 12

  pub Keeps-upsert : (r : ThreadMappingRecord) → Keeps P (upsert r)
  unfolding upsert
  Keeps-upsert r = record { at = λ w h. f.threads w _ h }

  pub Keeps-get_thread : (s a : String) → Keeps P (get_thread s a)
  unfolding get_thread
  Keeps-get_thread s a = record { at = λ w h. h }

  pub Keeps-latest_runtime : (a : String) → Keeps P (get_latest_runtime_for_agent a)
  unfolding get_latest_runtime_for_agent
  Keeps-latest_runtime a = search (keeps_rules, Keeps-list_runtimes)

  Keeps-start_thread : (s a : String) → Keeps P (start_thread s a)
  unfolding start_thread
  Keeps-start_thread s a =
      search
        (
          keeps_rules,
          Keeps-latest_runtime,
          Keeps-call_bridge f,
          Keeps-utc_now f,
          Keeps-new_id f,
          Keeps-upsert,
        )
        depth 12

  Keeps-resume_thread : (s a : String) (r : ThreadMappingRecord) → Keeps P (resume_thread s a r)
  unfolding resume_thread
  Keeps-resume_thread s a r =
      search (keeps_rules, Keeps-call_bridge f, Keeps-utc_now f, Keeps-upsert) depth 12

  Keeps-reuse_or_start :
      (s a : String) (o : Option ThreadMappingRecord) → Keeps P (reuse_or_start s a o)
  unfolding reuse_or_start
  Keeps-reuse_or_start s a none = Keeps-start_thread s a
  Keeps-reuse_or_start s a (some r) = search (keeps_rules, Keeps-start_thread, Keeps-resume_thread)

  pub Keeps-get_or_create_thread : (s a : String) → Keeps P (get_or_create_thread s a)
  unfolding get_or_create_thread
  Keeps-get_or_create_thread s a = search (keeps_rules, Keeps-get_thread, Keeps-reuse_or_start)

  Keeps-create_artifact :
      (job : JobRecord) (a : ArtifactFields) (at : String) → Keeps P (create_artifact job a at)
  unfolding create_artifact
  Keeps-create_artifact job a at =
      search (keeps_rules, Keeps-create, Keeps-new_id f, Keeps-record_job_event, f.artifacts) depth
        12

  Keeps-create_files :
      (job : JobRecord) (at : String) (items : Items) → Keeps P (create_files job at items)
  unfolding create_files
  Keeps-create_files job at nil = search keeps_rules
  Keeps-create_files job at (cons (obj file) items) =
      Keeps-bind (create_artifact job (file_fields file) at)
        (λ created. create_files job at items >>= λ rest. pure (created ∷ rest))
        (Keeps-create_artifact job (file_fields file) at)
        (λ created.
          Keeps-bind (create_files job at items) (λ rest. pure (created ∷ rest))
            (Keeps-create_files job at items) (λ rest. Keeps-pure (created ∷ rest)))
  Keeps-create_files job at (cons _ items) = Keeps-create_files job at items

  Keeps-bundle_of :
      (job : JobRecord) (at : String) (o : Option ArtifactFields) → Keeps P (bundle_of job at o)
  unfolding bundle_of
  Keeps-bundle_of job at none = search keeps_rules
  Keeps-bundle_of job at (some a) = search (keeps_rules, Keeps-create_artifact)

  pub Keeps-create_artifacts :
      (job : JobRecord) (p : Fields) (at : String) → Keeps P (create_artifacts_from_turn job p at)
  unfolding create_artifacts_from_turn
  Keeps-create_artifacts job p at = search (keeps_rules, Keeps-bundle_of, Keeps-create_files)

  pub Keeps-create_request :
      Unseen P approval_repository
      → (job : JobRecord) (t : String) (p : Fields) (m : Option Fields) (at : String)
      → Keeps P (create_request job t p m at)
  unfolding create_request
  Keeps-create_request unseen job t p m at =
      search
        (
          keeps_rules,
          Keeps-create,
          Keeps-new_id f,
          Keeps-record_job_event,
          Keeps-record_session_event,
          unseen,
        )
        depth 12

  pub Keeps-start_turn : (job : JobRecord) → Keeps P (start_turn job)
  unfolding start_turn
  Keeps-start_turn job =
      search
        (
          keeps_rules,
          Keeps-get_or_create_thread,
          Keeps-utc_now f,
          Keeps-call_bridge f,
          Keeps-new_id f,
        )
        depth 12

  pub Keeps-publish_output_message :
      (s : SessionRecord) (job : JobRecord) (a : AgentRecord) (c : String) (r : Option String)
      (at : String)
      → Keeps P (publish_output_message s job a c r at)
  unfolding publish_output_message
  Keeps-publish_output_message s job a c r at =
      search
        (
          keeps_rules,
          Keeps-create,
          Keeps-update,
          Keeps-new_id f,
          Keeps-record_session_event,
          f.messages,
          f.sessions,
        )
        depth 12

  pub Keeps-request_approval :
      Unseen P approval_repository → (job : JobRecord) (t : Turn) → Keeps P (request_approval job t)
  unfolding request_approval
  Keeps-request_approval unseen job t = search (keeps_rules, Keeps-create_request unseen)
