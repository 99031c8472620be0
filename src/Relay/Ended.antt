-- ===== src/Relay/Ended.antt =====
-- Jobs that have ended, under `interrupt_job` and `compact_job` of app/services/relay_engine.py.
use codex_collaboration_coor.Common.{
  String, ◌==◌, true, false, Bool-cases, inl, inr, ◌⊎◌, Option, none, some, List, [], ◌∷◌, ◌≡◌,
  refl, ◌∙◌, sym, ap, eq_iff, Option-cases, subst,
}
use codex_collaboration_coor.Common.Json.{Json}
use codex_collaboration_coor.Exec.{Exec, ◌>>=◌}
use codex_collaboration_coor.Exec.Keeps.{Keeps, keeps_rules}
use codex_collaboration_coor.Store.{World}
use codex_collaboration_coor.Store.Statuses.{JobStatus, completed, failed}
use codex_collaboration_coor.Store.Records.{
  JobRecord, SessionRecord, AgentRecord, ApprovalRequestRecord,
}
use codex_collaboration_coor.Store.Env.{Env, call_bridge}
use codex_collaboration_coor.Store.Table.{get, update}
use codex_collaboration_coor.Store.Table.Rows.{
  find_row, has_row, replace_row, find_row-replace_row, key-find_row,
}
use codex_collaboration_coor.Store.Repositories.{job_repository}
use codex_collaboration_coor.Store.Keeps.{Keeps-get}
use codex_collaboration_coor.Events.Keeps.{
  Tables, Keeps-utc_now, Keeps-job_event, Keeps-session_event,
}
use codex_collaboration_coor.Approvals.{get_job}
use codex_collaboration_coor.LoopGuard.{get_session}
use codex_collaboration_coor.Relay.Commands.{
  get_agent, thread_of_job, is_over, interrupt_turn, interrupt_job, compact_job,
}
use codex_collaboration_coor.Relay.Interrupts.{Keeps-own_or_mapped, Keeps-already_interrupted}

abbrev status_in : Option JobRecord → Option JobStatus
status_in none = none
status_in (some job) = some job.status

-- The status of the job with this id.
abbrev pub status_at : String → List JobRecord → Option JobStatus
status_at id jobs = status_in (find_row (λ r. r.id) id jobs)

module _ ⦃env : Env⦄ (id : String) (status : JobStatus) where
  abbrev Rests : List JobRecord → List ApprovalRequestRecord → Type 0
  Rests jobs requests = status_at id jobs ≡ some status

  -- A row that leaves the status of the job as it is.
  abbrev IsSafe : JobRecord → Type 0
  IsSafe row = (row.id == id) ≡ true → row.status ≡ status

  status_at-replace_row :
      (row : JobRecord) (jobs : List JobRecord)
      → IsSafe row
      → status_at id jobs ≡ some status
      → status_at id (replace_row (λ r. r.id) row jobs) ≡ some status
  status_at-replace_row row jobs safe h =
      ap status_in (find_row-replace_row (λ r. r.id) row id jobs)
      ∙ elim (Bool-cases (row.id == id)) [
        | inr other ↦ rw other h
        | inl same ↦ elim (Bool-cases (has_row (λ r. r.id) id jobs)) [
          | inl there ↦ rw (same, there, safe same) refl
          | inr gone ↦ rw (same, gone) h
        ]
      ]

  Keeps-update : (row : JobRecord) → IsSafe row → Keeps (Tables Rests) (update job_repository row)
  unfolding update
  Keeps-update row safe = record {
    at = λ w h. elim (Bool-cases (has_row (λ r. r.id) row.id w.jobs)) [
      | inl e ↦ elim (Bool-cases (job_repository.admits row)) [
        | inl admitted ↦ rw (e, admitted) (status_at-replace_row row w.jobs safe h)
        | inr refused ↦ rw (e, refused) h
      ]
      | inr e ↦ rw e h
    ];
  }

  Keeps-call_bridge :
      (method : String) (params : Json) → Keeps (Tables Rests) (call_bridge method params)
  unfolding call_bridge
  Keeps-call_bridge method params = record { at = λ w h. h }

  Keeps-interrupt_turn :
      (job : JobRecord) (s : SessionRecord) (a : AgentRecord) (reason : Option String)
      → (job.id == id) ≡ false
      → Keeps (Tables Rests) (interrupt_turn job s a reason)
  unfolding interrupt_turn thread_of_job
  Keeps-interrupt_turn job s a reason other =
      let safe : (x : JobStatus) → (job.id == id) ≡ true → x ≡ status =
        λ x same. absurd (cc (other, same)) in
      search
        (
          keeps_rules,
          Keeps-own_or_mapped,
          Keeps-utc_now Rests,
          Keeps-call_bridge,
          Keeps-update,
          Keeps-job_event Rests,
          Keeps-session_event Rests,
          safe,
        )
        depth 14

  found-IsSafe :
      (j : String) (job : JobRecord) (jobs : List JobRecord)
      → find_row (λ r. r.id) j jobs ≡ some job
      → status_at id jobs ≡ some status
      → IsSafe job
  found-IsSafe j job jobs found h same =
      let is_j : job.id ≡ j = key-find_row (λ r. r.id) j jobs found in
      let is_id : job.id ≡ id = (eq_iff job.id id).0 same in
      let there : find_row (λ r. r.id) id jobs ≡ some job =
        subst (λ k. find_row (λ r. r.id) k jobs ≡ some job) (sym is_j ∙ is_id) found in
      cc (ap status_in there, h)

  -- Whatever follows the read of a job may take the job to be safe.
  Keeps-found :
      {A : Type 0} (j : String) (rest : JobRecord → Exec World A)
      → ((job : JobRecord) → IsSafe job → Keeps (Tables Rests) (rest job))
      → Keeps (Tables Rests) (get_job j >>= rest)
  unfolding get_job get ◌>>=◌
  Keeps-found j rest each = record {
    at = λ w h. elim (Option-cases (find_row (λ r. r.id) j w.jobs)) [
      | inl e ↦ rw e h
      | inr (job, e) ↦ rw e ((each job (found-IsSafe j job w.jobs e h)).at w h)
    ];
  }

  Keeps-compact_job :
      (j : String) (reason : Option String) → Keeps (Tables Rests) (compact_job j reason)
  unfolding compact_job get_session get_agent thread_of_job
  Keeps-compact_job j reason = Keeps-found j _ (λ job safe.
      search
        (
          keeps_rules,
          Keeps-get,
          Keeps-own_or_mapped,
          Keeps-utc_now Rests,
          Keeps-call_bridge,
          Keeps-update,
          Keeps-job_event Rests,
          Keeps-session_event Rests,
          safe,
        )
        depth 14)

  -- A safe job that is not over is another one.
  running_other :
      (job : JobRecord)
      → (status ≡ completed) ⊎ (status ≡ failed)
      → IsSafe job
      → is_over job ≡ false
      → (job.id == id) ≡ false
  running_other job ended safe running = elim (Bool-cases (job.id == id)) [
    | inr other ↦ other
    | inl same ↦ elim ended [
      | inl done ↦ absurd (cc (rw (safe same ∙ done) at running))
      | inr broke ↦ absurd (cc (rw (safe same ∙ broke) at running))
    ]
  ]

  Keeps-interrupt_job :
      (j : String) (reason : Option String)
      → (status ≡ completed) ⊎ (status ≡ failed)
      → Keeps (Tables Rests) (interrupt_job j reason)
  unfolding interrupt_job get_session get_agent
  Keeps-interrupt_job j reason ended = Keeps-found j _ (λ job safe.
      let other = running_other job ended safe in
      search (keeps_rules, Keeps-get, Keeps-already_interrupted, Keeps-interrupt_turn, other) depth
        14)

-- The commands of a participant that reach the Codex process of a job.
pub data Command : Type 0 where
  interrupt compact : (job_id : String) (reason : Option String) → Command

module _ ⦃env : Env⦄ where
  abbrev after_command : Command → World → World
  after_command (interrupt j reason) w = (interrupt_job j reason w).1
  after_command (compact j reason) w = (compact_job j reason w).1

  unfoldable pub after_commands : List Command → World → World
  after_commands [] w = w
  after_commands (c ∷ cs) w = after_commands cs (after_command c w)

-- No sequence of interrupts and compactions, of whichever jobs, changes the status of a job that is
-- completed or failed, whatever is raised.
pub after_commands-ended :
    ⦃env : Env⦄ (cs : List Command) (id : String) (status : JobStatus) (w : World)
    → (status ≡ completed) ⊎ (status ≡ failed)
    → status_at id w.jobs ≡ some status
    → status_at id (after_commands cs w).jobs ≡ some status
unfolding after_commands
after_commands-ended [] id status w ended h = h
after_commands-ended (interrupt j reason ∷ cs) id status w ended h =
    after_commands-ended cs id status _ ended
      ((Keeps-interrupt_job id status j reason ended).at w h)
after_commands-ended (compact j reason ∷ cs) id status w ended h =
    after_commands-ended cs id status _ ended ((Keeps-compact_job id status j reason).at w h)
