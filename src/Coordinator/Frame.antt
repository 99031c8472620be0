-- ===== src/Coordinator/Frame.antt =====
-- The steps of the queue, the recovery and the approvals, and the tables that they do not write.
use codex_collaboration_coor.Common.{String, Option, none, some, List, [], ◌∷◌}
use codex_collaboration_coor.Common.Json.{Fields}
use codex_collaboration_coor.Exec.Keeps.{Keeps, Keeps-both, keeps_rules}
use codex_collaboration_coor.Store.{World}
use codex_collaboration_coor.Store.Statuses.{ApprovalStatus}
use codex_collaboration_coor.Store.Records.{
  JobRecord, SessionRecord, AgentRecord, ApprovalRequestRecord,
}
use codex_collaboration_coor.Store.Env.{Env}
use codex_collaboration_coor.Store.Repositories.{approval_repository}
use codex_collaboration_coor.Store.Keeps.{
  Unseen, Frame, Keeps-get, Keeps-update, Keeps-list_jobs, Keeps-list_active_rules, Keeps-utc_now,
  Keeps-call_bridge,
}
use codex_collaboration_coor.LoopGuard.{get_session}
use codex_collaboration_coor.Approvals.{
  get_job, get_approval, update_job_for_decision, resolve_pending, resolve,
}
use codex_collaboration_coor.Rules.{resolve_job_dispatch}
use codex_collaboration_coor.Relay.Commands.{
  get_agent, own_or_mapped, thread_of_job, interrupt_turn, already_interrupted, interrupt_job,
  compact_job,
}
use codex_collaboration_coor.Relay.Frame.{
  Keeps-record_session_event, Keeps-record_job_event, Keeps-upsert, Keeps-get_thread,
  Keeps-latest_runtime,
}
use codex_collaboration_coor.Queue.{is_agent_dispatchable, move_channel, block_job}
use codex_collaboration_coor.Recovery.{
  count_if, rehydrate, recover_thread, recover_threads_of, recover_thread_mappings,
}

module _ {P : World → Type 0} (f : Frame P) ⦃env : Env⦄ where
  pub Keeps-get_job : (id : String) → Keeps P (get_job id)
  unfolding get_job
  Keeps-get_job id = search (keeps_rules, Keeps-get)

  pub Keeps-get_session : (id : String) → Keeps P (get_session id)
  unfolding get_session
  Keeps-get_session id = search (keeps_rules, Keeps-get)

  pub Keeps-get_agent : (id : String) → Keeps P (get_agent id)
  unfolding get_agent
  Keeps-get_agent id = search (keeps_rules, Keeps-get)

  pub Keeps-own_or_mapped : (job : JobRecord) (o : Option String) → Keeps P (own_or_mapped job o)
  unfolding own_or_mapped
  Keeps-own_or_mapped job (some t) = search keeps_rules
  Keeps-own_or_mapped job none = search (keeps_rules, Keeps-get_thread f)

  pub Keeps-thread_of_job : (job : JobRecord) → Keeps P (thread_of_job job)
  unfolding thread_of_job
  Keeps-thread_of_job job = Keeps-own_or_mapped job job.codex_thread_id

  pub Keeps-interrupt_turn :
      (job : JobRecord) (s : SessionRecord) (a : AgentRecord) (r : Option String)
      → Keeps P (interrupt_turn job s a r)
  unfolding interrupt_turn
  Keeps-interrupt_turn job s a r =
      search
        (
          keeps_rules,
          Keeps-thread_of_job,
          Keeps-utc_now f,
          Keeps-call_bridge f,
          Keeps-update,
          f.jobs,
          Keeps-record_job_event f,
          Keeps-record_session_event f,
        )
        depth 14

  pub Keeps-already_interrupted : (job : JobRecord) → Keeps P (already_interrupted job)
  unfolding already_interrupted
  Keeps-already_interrupted job = search (keeps_rules, Keeps-thread_of_job)

  pub Keeps-interrupt_job : (id : String) (r : Option String) → Keeps P (interrupt_job id r)
  unfolding interrupt_job
  Keeps-interrupt_job id r =
      search
        (
          keeps_rules, Keeps-get_job, Keeps-get_session, Keeps-get_agent, Keeps-interrupt_turn,
          Keeps-already_interrupted,
        )
        depth 12

  pub Keeps-compact_job : (id : String) (r : Option String) → Keeps P (compact_job id r)
  unfolding compact_job
  Keeps-compact_job id r =
      search
        (
          keeps_rules,
          Keeps-get_job,
          Keeps-get_session,
          Keeps-get_agent,
          Keeps-thread_of_job,
          Keeps-utc_now f,
          Keeps-call_bridge f,
          Keeps-update,
          f.jobs,
          Keeps-record_job_event f,
          Keeps-record_session_event f,
        )
        depth 16

  pub Keeps-update_job_for_decision :
      (job : JobRecord) (s : ApprovalStatus) (now : String)
      → Keeps P (update_job_for_decision job s now)
  unfolding update_job_for_decision
  Keeps-update_job_for_decision job s now = search (Keeps-update, f.jobs)

  module _ (approvals : Unseen P approval_repository) where
    pub Keeps-resolve_pending :
        (a : ApprovalRequestRecord) (s : ApprovalStatus) (p : Option Fields)
        → Keeps P (resolve_pending a s p)
    unfolding resolve_pending
    Keeps-resolve_pending a s p =
        search
          (
            keeps_rules,
            Keeps-utc_now f,
            Keeps-update,
            approvals,
            Keeps-get_job,
            Keeps-update_job_for_decision,
            Keeps-record_job_event f,
            Keeps-record_session_event f,
          )
          depth 14

    pub Keeps-resolve :
        (id : String) (s : ApprovalStatus) (p : Option Fields) → Keeps P (resolve id s p)
    unfolding resolve get_approval
    Keeps-resolve id s p = search (keeps_rules, Keeps-get, Keeps-resolve_pending) depth 10

  pub Keeps-resolve_job_dispatch : (job : JobRecord) → Keeps P (resolve_job_dispatch job)
  unfolding resolve_job_dispatch
  Keeps-resolve_job_dispatch job = search (keeps_rules, Keeps-list_active_rules)

  pub Keeps-is_agent_dispatchable : (a : String) → Keeps P (is_agent_dispatchable a)
  unfolding is_agent_dispatchable
  Keeps-is_agent_dispatchable a = search (keeps_rules, Keeps-latest_runtime f)

  pub Keeps-move_channel : (job : JobRecord) (c : String) → Keeps P (move_channel job c)
  unfolding move_channel
  Keeps-move_channel job c = search (keeps_rules, Keeps-update, f.jobs)

  pub Keeps-block_job : (job : JobRecord) (r : Option String) → Keeps P (block_job job r)
  unfolding block_job
  Keeps-block_job job r = search (keeps_rules, Keeps-utc_now f, Keeps-update, f.jobs)

  pub Keeps-rehydrate : (job : JobRecord) (t : String) → Keeps P (rehydrate job t)
  unfolding rehydrate
  Keeps-rehydrate job t =
      search (keeps_rules, Keeps-utc_now f, Keeps-upsert f, Keeps-record_session_event f) depth 10

  pub Keeps-recover_thread : (job : JobRecord) (o : Option String) → Keeps P (recover_thread job o)
  unfolding recover_thread
  Keeps-recover_thread job none = search keeps_rules
  Keeps-recover_thread job (some t) = search (keeps_rules, Keeps-rehydrate)

  pub Keeps-recover_threads_of : (jobs : List JobRecord) → Keeps P (recover_threads_of jobs)
  unfolding recover_threads_of
  Keeps-recover_threads_of [] = search keeps_rules
  Keeps-recover_threads_of (job ∷ jobs) =
      Keeps-both _ _ count_if (Keeps-recover_thread job job.codex_thread_id)
        (Keeps-recover_threads_of jobs)

  pub Keeps-recover_thread_mappings : Keeps P recover_thread_mappings
  unfolding recover_thread_mappings
  Keeps-recover_thread_mappings = search (keeps_rules, Keeps-list_jobs, Keeps-recover_threads_of)
