-- ===== src/Relay/Execute.antt =====
-- `execute_job` of app/services/relay_engine.py.
use codex_collaboration_coor.Common.{ℕ, String, none, some, if◌then◌else◌}
use codex_collaboration_coor.Exec.{Exec, pure, ◌>>=◌}
use codex_collaboration_coor.Store.{World}
use codex_collaboration_coor.Store.Records.{JobRecord, SessionRecord, AgentRecord}
use codex_collaboration_coor.Store.Env.{Env}
use codex_collaboration_coor.LoopGuard.{LoopGuardDecision, evaluate, pause_job, get_session}
use codex_collaboration_coor.Approvals.{get_job}
use codex_collaboration_coor.Relay.Result.{RelayExecutionResult}
use codex_collaboration_coor.Relay.Turn.{start_turn}
use codex_collaboration_coor.Relay.Publish.{publish_turn}
use codex_collaboration_coor.Relay.Commands.{get_agent}

module _ ⦃env : Env⦄ where
  unfoldable pub run_turn :
      JobRecord → SessionRecord → AgentRecord → String → Exec World RelayExecutionResult
  run_turn job session agent relay_reason = do
    turn ← start_turn job
    publish_turn job session agent relay_reason turn

  -- The loop guard's branch.
  unfoldable pub pause_relay : JobRecord → String → Exec World RelayExecutionResult
  pause_relay job reason = do
    paused_job ← pause_job job reason
    pure (record {
      job_id = paused_job.id;
      session_id = paused_job.session_id;
      agent_id = paused_job.assigned_agent_id;
      thread_id = paused_job.codex_thread_id;
      turn_id = paused_job.active_turn_id;
      message_id = none;
      event_type = "job.paused_by_loop_guard";
    })

  -- `if decision.should_pause and decision.reason is not None`
  abbrev pub guarded :
      LoopGuardDecision
      → JobRecord
      → Exec World RelayExecutionResult
      → Exec World RelayExecutionResult
  guarded decision job go =
      if decision.should_pause
      then elim decision.reason [ none ↦ go | some reason ↦ pause_relay job reason ]
      else go

  module _ (digits : ℕ → String) (max_relay_edges_per_agent : ℕ) where
    unfoldable pub execute_job : String → String → Exec World RelayExecutionResult
    execute_job job_id relay_reason = do
      job ← get_job job_id
      session ← get_session job.session_id
      agent ← get_agent job.assigned_agent_id
      decision ← evaluate digits max_relay_edges_per_agent job
      guarded decision job (run_turn job session agent relay_reason)
