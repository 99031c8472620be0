-- ===== src/Relay/Interrupts.antt =====
-- `interrupt_job` of app/services/relay_engine.py, called again.
use codex_collaboration_coor.Common.{
  String, List, Option, none, some, true, ◌≡◌, refl, if◌then◌else◌, sym, ◌∙◌, subst,
}
use codex_collaboration_coor.Exec.{ok, ◌>>=◌}
use codex_collaboration_coor.Exec.Keeps.{Keeps, keeps_rules}
use codex_collaboration_coor.Exec.Ensures.{
  Ensures, Ensures-any, Ensures-bind, Ensures-kept, Ensures-pure, Ensures-if, Ensures-some,
}
use codex_collaboration_coor.Store.{World}
use codex_collaboration_coor.Store.Records.{
  JobRecord, SessionRecord, AgentRecord, ApprovalRequestRecord,
}
use codex_collaboration_coor.Store.Env.{Env}
use codex_collaboration_coor.Store.Table.{get, update}
use codex_collaboration_coor.Store.Ensures.{Ensures-update, Ensures-get}
use codex_collaboration_coor.Store.Repositories.{job_repository}
use codex_collaboration_coor.Store.Table.Rows.{find_row, key-find_row}
use codex_collaboration_coor.Events.Keeps.{Keeps-job_event, Keeps-session_event}
use codex_collaboration_coor.LoopGuard.{get_session}
use codex_collaboration_coor.Threads.{get_thread}
use codex_collaboration_coor.Store.Keeps.{Keeps-get}
use codex_collaboration_coor.Approvals.{get_job}
use codex_collaboration_coor.Relay.Result.{RelayExecutionResult}
use codex_collaboration_coor.Relay.Commands.{
  get_agent, own_or_mapped, thread_of_job, is_over, already_interrupted, interrupt_turn,
  interrupt_job,
}

module _ {P : World → Type 0} ⦃env : Env⦄ where
  Keeps-get_job : (id : String) → Keeps P (get_job id)
  unfolding get_job
  Keeps-get_job id = search (keeps_rules, Keeps-get)

  Keeps-get_thread : (s a : String) → Keeps P (get_thread s a)
  unfolding get_thread
  Keeps-get_thread s a = record { at = λ w h. h }

  pub Keeps-own_or_mapped : (job : JobRecord) (o : Option String) → Keeps P (own_or_mapped job o)
  unfolding own_or_mapped
  Keeps-own_or_mapped job (some t) = search keeps_rules
  Keeps-own_or_mapped job none = search (keeps_rules, Keeps-get_thread)

  pub Keeps-already_interrupted : (job : JobRecord) → Keeps P (already_interrupted job)
  unfolding already_interrupted thread_of_job
  Keeps-already_interrupted job = search (keeps_rules, Keeps-own_or_mapped)

  -- What follows the read of a job that is over.
  Keeps-over :
      (job : JobRecord) (reason : Option String)
      → is_over job ≡ true
      → Keeps P (
          get_session job.session_id >>= λ session. get_agent job.assigned_agent_id >>= λ agent.
          if is_over job then already_interrupted job else interrupt_turn job session agent reason)
  unfolding get_session get_agent
  Keeps-over job reason over =
      rw over (search (keeps_rules, Keeps-get, Keeps-already_interrupted) depth 10)

module _ ⦃env : Env⦄ where
  -- An interrupt of a job that has ended or was interrupted changes nothing.
  interrupt_job-over :
      (id : String) (reason : Option String) (w : World) (job : JobRecord)
      → find_row (λ r. r.id) id w.jobs ≡ some job
      → is_over job ≡ true
      → (interrupt_job id reason w).1 ≡ w
  unfolding interrupt_job get_job get ◌>>=◌
  interrupt_job-over id reason w job found over =
      rw found ((Keeps-over {P = λ v. v ≡ w} job reason over).at w refl)

-- The job with this id is over.
abbrev Over : String → List JobRecord → Type 0
Over id jobs = (job : JobRecord) × (find_row (λ r. r.id) id jobs ≡ some job) × (is_over job ≡ true)

module _ ⦃env : Env⦄ (id : String) where
  abbrev OverIn : List JobRecord → List ApprovalRequestRecord → Type 0
  OverIn jobs requests = Over id jobs

  update-Over :
      {P : World → Type 0} (row : JobRecord)
      → row.id ≡ id
      → is_over row ≡ true
      → Ensures P (λ u w. Over id w.jobs) (update job_repository row)
  update-Over row is_id over = record {
    at = λ w h u e.
        let (is_u, has, kept) =
          (Ensures-update job_repository {P = λ v. Unit {0}} row (λ v rs. refl)
              (record { at = λ v rs t. t })).at
            w tt u e in
        (
          row,
          subst (λ i. find_row (λ r. r.id) i (update job_repository row w).1.jobs ≡ some row) is_id
              has,
          over,
        );
  }

  interrupt_turn-Over :
      (job : JobRecord) (s : SessionRecord) (a : AgentRecord) (reason : Option String)
      → job.id ≡ id
      → Ensures (λ _. Unit {0}) (λ _ w. Over id w.jobs) (interrupt_turn job s a reason)
  unfolding interrupt_turn
  interrupt_turn-Over job s a reason is_id = Ensures-bind _ _ _ (Ensures-any _) (λ found.
      Ensures-bind _ _ _ (Ensures-any _) (λ thread. Ensures-bind _ _ _ (Ensures-any _) (λ now.
        Ensures-bind _ _ _ (Ensures-any _) (λ reply.
          Ensures-bind (λ u w. Over id w.jobs) _ _ (update-Over _ is_id refl)
            (λ u.
              Ensures-bind (λ _ w. Over id w.jobs) _ _
                (Ensures-kept _ (Keeps-job_event OverIn _ _ _ _))
                (λ _.
                  Ensures-bind (λ _ w. Over id w.jobs) _ _
                    (Ensures-kept _ (Keeps-session_event OverIn _ _ _ _ _ _))
                    (λ _. Ensures-pure _ (λ w h. h))))))))

  Ensures-found :
      Ensures
        (λ _. Unit {0})
        (λ (job : JobRecord) w. (job.id ≡ id) × (find_row (λ r. r.id) id w.jobs ≡ some job))
        (get_job id)
  unfolding get_job
  Ensures-found = Ensures-bind _ _ _ (Ensures-get job_repository id) (λ o.
      Ensures-some _ o (λ job found w h.
        (key-find_row (λ r. r.id) id w.jobs (sym (h.0) ∙ found), sym (h.0) ∙ found)))

  interrupt_job-Over :
      (reason : Option String)
      → Ensures (λ _. Unit {0}) (λ _ w. Over id w.jobs) (interrupt_job id reason)
  unfolding interrupt_job get_session get_agent
  interrupt_job-Over reason =
      Ensures-bind
        (λ (job : JobRecord) w. (job.id ≡ id) × (find_row (λ r. r.id) id w.jobs ≡ some job)) _ _
        (Ensures-found)
        (λ job.
          Ensures-bind (λ _ w. (job.id ≡ id) × (find_row (λ r. r.id) id w.jobs ≡ some job)) _ _
            (Ensures-kept _ (search (keeps_rules, Keeps-get)))
            (λ session.
              Ensures-bind (λ _ w. (job.id ≡ id) × (find_row (λ r. r.id) id w.jobs ≡ some job)) _ _
                (Ensures-kept _ (search (keeps_rules, Keeps-get)))
                (λ agent.
                  Ensures-if (is_over job) _ _
                    (λ over. record {
                      at = λ w h a e.
                          (Keeps-already_interrupted {P = λ v. Over id v.jobs} job).at w
                            (job, h.1, over);
                    })
                    (λ running. record {
                      at =
                          λ w h a e. (interrupt_turn-Over job session agent reason h.0).at w tt a e;
                    }))))

-- After an interrupt that returned, a further one of the same job changes nothing.
pub interrupt_job-again :
    ⦃env : Env⦄ (id : String) (reason again : Option String) (w : World) (r : RelayExecutionResult)
    → (interrupt_job id reason w).0 ≡ ok r
    → (interrupt_job id again (interrupt_job id reason w).1).1 ≡ (interrupt_job id reason w).1
interrupt_job-again id reason again w r returned =
    let (job, found, over) = (interrupt_job-Over id reason).at w tt r returned in
    interrupt_job-over id again (interrupt_job id reason w).1 job found over
