-- ===== src/Coordinator/Serve.antt =====
-- The queue, the recovery and every request, and the tables that they do not write.
use codex_collaboration_coor.Common.{ℕ, String, Option, List, [], ◌∷◌}
use codex_collaboration_coor.Common.Json.{Fields}
use codex_collaboration_coor.Exec.Keeps.{Keeps, Keeps-bind, Keeps-pure, Keeps-both, keeps_rules}
use codex_collaboration_coor.Store.{World}
use codex_collaboration_coor.Store.Statuses.{ApprovalStatus}
use codex_collaboration_coor.Store.Records.{JobRecord}
use codex_collaboration_coor.Store.Env.{Env}
use codex_collaboration_coor.Store.Repositories.{job_input_repository}
use codex_collaboration_coor.Store.Keeps.{
  Unseen, Frame, Keeps-create, Keeps-get, Keeps-update, Keeps-list_jobs, Keeps-list_jobs_by_agent,
  Keeps-list_runtimes, Keeps-utc_now, Keeps-new_id,
}
use codex_collaboration_coor.Approvals.{resolve, accept, decline}
use codex_collaboration_coor.Relay.Execute.{execute_job}
use codex_collaboration_coor.Queue.{
  record_input, dispatch_now, schedule_job, retry_job, resume_job, with_result, relay_all,
  dispatch_pending_for_agent,
}
use codex_collaboration_coor.Recovery.{
  count_if, replay_job, replay_waiting, replay_jobs, replay_for, recover_queued_jobs,
}
use codex_collaboration_coor.Coordinator.{
  Request, execute, interrupt, compact, retry, resume, schedule, dispatch_pending, recover,
  accept_approval, decline_approval, serve,
}
use codex_collaboration_coor.Coordinator.Frame.{
  Keeps-get_job, Keeps-interrupt_job, Keeps-compact_job, Keeps-resolve_job_dispatch,
  Keeps-is_agent_dispatchable, Keeps-move_channel, Keeps-block_job, Keeps-recover_thread_mappings,
}

module _ {P : World → Type 0} (f : Frame P) ⦃env : Env⦄ where
  -- The recovery relays with one reason.
  module _ (digits : ℕ → String) (n : ℕ)
      (relay_startup : (job_id : String)
        → Keeps P (execute_job digits n job_id "startup_recovery")) where
    Keeps-replay_job : (job : JobRecord) → Keeps P (replay_job digits n job)
    unfolding replay_job
    Keeps-replay_job job = search (keeps_rules, relay_startup, Keeps-get)

    Keeps-replay_waiting :
        (agents : List String) (job : JobRecord) → Keeps P (replay_waiting digits n agents job)
    unfolding replay_waiting
    Keeps-replay_waiting agents job = search (keeps_rules, Keeps-replay_job)

    Keeps-replay_jobs :
        (agents : List String) (jobs : List JobRecord) → Keeps P (replay_jobs digits n agents jobs)
    unfolding replay_jobs
    Keeps-replay_jobs agents [] = search keeps_rules
    Keeps-replay_jobs agents (job ∷ jobs) =
        Keeps-both _ _ count_if (Keeps-replay_waiting agents job) (Keeps-replay_jobs agents jobs)

    Keeps-replay_for : (agents : List String) → Keeps P (replay_for digits n agents)
    unfolding replay_for
    Keeps-replay_for [] = search keeps_rules
    Keeps-replay_for (a ∷ rest) = search (keeps_rules, Keeps-list_jobs, Keeps-replay_jobs)

    pub Keeps-recover_queued_jobs : Keeps P (recover_queued_jobs digits n)
    unfolding recover_queued_jobs
    Keeps-recover_queued_jobs = search (keeps_rules, Keeps-list_runtimes, Keeps-replay_for)

  module _ (digits : ℕ → String) (n : ℕ) (inputs : Unseen P job_input_repository)
      (relay : (job_id reason : String) → Keeps P (execute_job digits n job_id reason)) where
    Keeps-record_input :
        (job : JobRecord) (t : String) (p : Option Fields) → Keeps P (record_input job t p)
    unfolding record_input
    Keeps-record_input job t p =
        search (keeps_rules, Keeps-utc_now f, Keeps-new_id f, Keeps-create, inputs)

    Keeps-dispatch_now : (job : JobRecord) (r : String) → Keeps P (dispatch_now digits n job r)
    unfolding dispatch_now
    Keeps-dispatch_now job r = search (keeps_rules, Keeps-is_agent_dispatchable f, relay)

    pub Keeps-schedule_job :
        (id t : String) (p : Option Fields) (r : String) → Keeps P (schedule_job digits n id t p r)
    unfolding schedule_job
    Keeps-schedule_job id t p r =
        search
          (
            keeps_rules,
            Keeps-get_job f,
            Keeps-record_input,
            Keeps-resolve_job_dispatch f,
            Keeps-move_channel f,
            Keeps-dispatch_now,
            Keeps-block_job f,
          )
          depth 12

    pub Keeps-retry_job : (id : String) (r : Option String) → Keeps P (retry_job digits n id r)
    unfolding retry_job
    Keeps-retry_job id r =
        search
          (keeps_rules, Keeps-get_job f, Keeps-utc_now f, Keeps-update, f.jobs, Keeps-schedule_job)
          depth 12

    pub Keeps-resume_job : (id : String) (r : Option String) → Keeps P (resume_job digits n id r)
    unfolding resume_job
    Keeps-resume_job id r =
        search
          (keeps_rules, Keeps-get_job f, Keeps-utc_now f, Keeps-update, f.jobs, Keeps-schedule_job)
          depth 12

    Keeps-relay_all : (jobs : List JobRecord) → Keeps P (relay_all digits n jobs)
    unfolding relay_all
    Keeps-relay_all [] = search keeps_rules
    Keeps-relay_all (job ∷ jobs) =
        Keeps-both _ _ with_result (search (keeps_rules, relay)) (Keeps-relay_all jobs)

    pub Keeps-dispatch_pending : (a : String) → Keeps P (dispatch_pending_for_agent digits n a)
    unfolding dispatch_pending_for_agent
    Keeps-dispatch_pending a =
        search
          (keeps_rules, Keeps-is_agent_dispatchable f, Keeps-list_jobs_by_agent, Keeps-relay_all)

    -- Whatever a relay and the tables of the services keep, every request keeps.
    pub Keeps-serve :
        ((id : String) (s : ApprovalStatus) (p : Option Fields) → Keeps P (resolve id s p))
        → (r : Request) → Keeps P (serve digits n r)
    unfolding serve accept decline
    Keeps-serve decide (execute j r) = search (keeps_rules, relay)
    Keeps-serve decide (interrupt j r) = search (keeps_rules, Keeps-interrupt_job f)
    Keeps-serve decide (compact j r) = search (keeps_rules, Keeps-compact_job f)
    Keeps-serve decide (retry j r) = search (keeps_rules, Keeps-retry_job)
    Keeps-serve decide (resume j r) = search (keeps_rules, Keeps-resume_job)
    Keeps-serve decide (schedule j t p r) = search (keeps_rules, Keeps-schedule_job)
    Keeps-serve decide (dispatch_pending a) = search (keeps_rules, Keeps-dispatch_pending)
    Keeps-serve decide recover =
        Keeps-bind _ _
          (Keeps-bind _ _ (Keeps-recover_thread_mappings f)
            (λ m. Keeps-recover_queued_jobs digits n (λ j. relay j "startup_recovery")))
          (λ k. Keeps-pure tt)
    Keeps-serve decide (accept_approval a p) = search (keeps_rules, decide)
    Keeps-serve decide (decline_approval a p) = search (keeps_rules, decide)
