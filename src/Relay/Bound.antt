-- ===== src/Relay/Bound.antt =====
-- The number of relays to an agent in a session, through execute_job of
-- app/services/relay_engine.py.
use codex_collaboration_coor.Common.{
  ℕ, ◌+◌, ◌<◌, String, eq_iff, true, Bool-cases, inl, inr, some, List, [], ◌∷◌, ◌++◌, ◌≡◌, refl,
  sym, ◌∙◌, arith, leb, leb→gt, count_of, count_of-append,
}
use codex_collaboration_coor.Exec.{◌>>=◌}
use codex_collaboration_coor.Exec.Keeps.{Keeps, Keeps-bind, Keeps-pure, keeps_rules}
use codex_collaboration_coor.Exec.Moves.{Moves, Moves-bind, Moves-then}
use codex_collaboration_coor.Store.{World}
use codex_collaboration_coor.Store.Records.{JobRecord, SessionRecord, AgentRecord, RelayEdgeRecord}
use codex_collaboration_coor.Store.Env.{Env, new_id}
use codex_collaboration_coor.Store.Table.{create}
use codex_collaboration_coor.Store.Repositories.{relay_edge_repository, list_edges_by_session}
use codex_collaboration_coor.Store.Keeps.{Frame, Keeps-get, Keeps-update, Keeps-new_id}
use codex_collaboration_coor.LoopGuard.{LoopGuardDecision, evaluate, get_session}
use codex_collaboration_coor.Approvals.{get_job}
use codex_collaboration_coor.Relay.Turn.{Turn, job_after_turn}
use codex_collaboration_coor.Relay.Publish.{record_relay_edge, publish_turn}
use codex_collaboration_coor.Relay.Commands.{get_agent}
use codex_collaboration_coor.Relay.Execute.{pause_relay, run_turn, guarded, execute_job}
use codex_collaboration_coor.Relay.Frame.{
  Keeps-pause_job, Keeps-start_turn, Keeps-record_job_event, Keeps-record_session_event,
  Keeps-request_approval, Keeps-create_artifacts, Keeps-publish_output_message,
}
use codex_collaboration_coor.Relay.Edges.{
  leads_to, relays, edges_frame, decision_at, should_pause-relays, pause-reason,
}

-- Fewer than `n` relays to the agent `a` in the session `s`.
abbrev pub Below : ℕ → String → String → World → Type 0
Below n s a w = relays s a w < n

-- The job's own agent has room for one more, too.
abbrev Room : ℕ → String → String → JobRecord → World → Type 0
Room n s a job w = (relays s a w < n) × (relays job.session_id job.assigned_agent_id w + 1 < n)

module _ ⦃env : Env⦄ (n : ℕ) (s a : String) where
  pub Below-Frame : Frame (Below n s a)
  Below-Frame = edges_frame (λ es. count_of (leads_to s a) es < n)

  Room-Frame : (job : JobRecord) → Frame (Room n s a job)
  Room-Frame job = edges_frame (λ es.
      (count_of (leads_to s a) es < n)
      × (count_of (leads_to job.session_id job.assigned_agent_id) es + 1 < n))

  -- One more edge to the job's agent.
  room-below :
      (job : JobRecord) (es : List RelayEdgeRecord) (e : RelayEdgeRecord)
      → e.session_id ≡ job.session_id
      → e.target_agent_id ≡ job.assigned_agent_id
      → count_of (leads_to s a) es < n
      → count_of (leads_to job.session_id job.assigned_agent_id) es + 1 < n
      → count_of (leads_to s a) (es ++ e ∷ []) < n
  room-below job es e same_session same_agent below room =
      rw (count_of-append (leads_to s a) es (e ∷ [])) (
        ground (arith, eq_iff e.session_id s, eq_iff e.target_agent_id a, same_session, same_agent))

  create_edge-Moves :
      (job : JobRecord) (e : RelayEdgeRecord)
      → e.session_id ≡ job.session_id
      → e.target_agent_id ≡ job.assigned_agent_id
      → Moves (Room n s a job) (Below n s a) (create relay_edge_repository e)
  unfolding create
  create_edge-Moves job e same_session same_agent = record {
    at = λ w h. elim (Bool-cases (relay_edge_repository.admits e)) [
      | inl k ↦ rw k (room-below job w.relay_edges e same_session same_agent h.0 h.1)
      | inr k ↦ rw k h.0
    ];
  }

  record_relay_edge-Moves :
      (job : JobRecord) (reason at : String)
      → Moves (Room n s a job) (Below n s a) (record_relay_edge job reason at)
  unfolding record_relay_edge
  record_relay_edge-Moves job reason at =
      Moves-bind (new_id "red_") _ (λ w h. h.0) (Keeps-new_id (Room-Frame job) "red_")
        (λ id. create_edge-Moves job _ refl refl)

  -- The job after a turn is in the same session, with the same agent.
  updated-Moves :
      (job : JobRecord) (turn : Turn) (reason at : String)
      → Moves (Room n s a job) (Below n s a) (record_relay_edge (job_after_turn job turn) reason at)
  unfolding job_after_turn
  updated-Moves job turn reason at = record_relay_edge-Moves (job_after_turn job turn) reason at

  publish_turn-Moves :
      (job : JobRecord) (session : SessionRecord) (agent : AgentRecord) (reason : String)
      (turn : Turn)
      → Moves (Room n s a job) (Below n s a) (publish_turn job session agent reason turn)
  unfolding publish_turn
  publish_turn-Moves job session agent reason turn =
      let f = Room-Frame job in
      let g = Below-Frame in
      search
        (
          Moves-bind,
          Moves-then,
          updated-Moves,
          λ (w : World) (h : Room n s a job w). h.0,
          Keeps-update,
          f.jobs,
          Keeps-record_job_event f,
          Keeps-request_approval f,
          Keeps-create_artifacts f,
          Keeps-publish_output_message f,
          Keeps-record_session_event g,
          Keeps-bind,
          Keeps-pure,
        )
        depth 14

  run_turn-Moves :
      (job : JobRecord) (session : SessionRecord) (agent : AgentRecord) (reason : String)
      → Moves (Room n s a job) (Below n s a) (run_turn job session agent reason)
  unfolding run_turn
  run_turn-Moves job session agent reason =
      Moves-bind _ _ (λ w h. h.0) (Keeps-start_turn (Room-Frame job) job)
        (publish_turn-Moves job session agent reason)

  pause_relay-Keeps :
      (job : JobRecord) (reason : String) → Keeps (Below n s a) (pause_relay job reason)
  unfolding pause_relay
  pause_relay-Keeps job reason =
      Keeps-bind _ _ (Keeps-pause_job Below-Frame job reason) (λ paused. Keeps-pure _)

  module _ (digits : ℕ → String) where
    -- Where the guard lets the relay go on, there is room.
    guarded-Below :
        (job : JobRecord) (session : SessionRecord) (agent : AgentRecord) (reason : String)
        (decision : LoopGuardDecision) (w : World)
        → decision.should_pause ≡ leb n (relays job.session_id job.assigned_agent_id w + 1)
        → (decision.should_pause ≡ true → (r : String) × (decision.reason ≡ some r))
        → Below n s a w
        → Below n s a (guarded decision job (run_turn job session agent reason) w).1
    guarded-Below job session agent reason decision w e reasoned h =
        elim (Bool-cases decision.should_pause) [
          | inl go ↦ let (r, is_r) = reasoned go in rw (go, is_r) ((pause_relay-Keeps job r).at w h)
          | inr go ↦ rw go (
              (run_turn-Moves job session agent reason).at w
                (h, leb→gt n (relays job.session_id job.assigned_agent_id w + 1) (sym e ∙ go)))
        ]

    evaluate-Below :
        (job : JobRecord) (session : SessionRecord) (agent : AgentRecord) (reason : String)
        → Keeps (Below n s a) (
            evaluate digits n job >>= λ decision.
            guarded decision job (run_turn job session agent reason))
    unfolding evaluate list_edges_by_session ◌>>=◌
    evaluate-Below job session agent reason = record {
      at = λ w h.
          guarded-Below job session agent reason (decision_at digits n job w) w
            (should_pause-relays digits n job w) (pause-reason digits n job w) h;
    }

    -- A relay keeps the number of relays of every agent in every session below the limit.
    pub execute_job-Below :
        (job_id reason : String) → Keeps (Below n s a) (execute_job digits n job_id reason)
    unfolding execute_job get_job get_session get_agent
    execute_job-Below job_id reason = search (keeps_rules, Keeps-get, evaluate-Below) depth 14
