-- ===== src/Orchestration.antt =====
-- app/services/orchestration_engine.py
pub mod Frame
pub mod Laws
pub mod Again
use codex_collaboration_coor.Common.{
  String, ◌<>◌, ◌==◌, ◌&&◌, ◌||◌, Bool, true, false, not, Option, none, some, is_text, is_none,
  or_text, if◌then◌else◌,
}
use codex_collaboration_coor.Exec.{Exec, pure, some_or_raise, lookup_error, ◌>>=◌, ◌>>◌}
use codex_collaboration_coor.Store.{World}
use codex_collaboration_coor.Store.Records.Phases.{
  PhaseRecord, OrchestrationRunRecord, active, blocked, completed, GateStatus, idle, pending,
  is_gate_pending, same_gate_status,
}
use codex_collaboration_coor.Store.Env.{Env, utc_now, new_id}
use codex_collaboration_coor.Store.Table.{create, update}
use codex_collaboration_coor.Store.Repositories.Phases.{
  orchestration_run_repository, get_run_by_session,
}
use codex_collaboration_coor.LoopGuard.{get_session}
use codex_collaboration_coor.Phases.{get_active_phase}

-- The arguments of `record_gate_request`.
pub record GateRequest : Type 0 where
  pub gate_type : String
  pub success_phase_key : String
  pub failure_phase_key : String
  pub source_job_id : String
  pub handoff_job_id : Option String
  pub review_id : Option String
  pub approval_id : Option String
  pub transition_artifact_id : Option String
  pub requested_by_agent_id : Option String
  pub transition_reason : Option String

-- The arguments of `record_gate_resolution`.
pub record GateResolution : Type 0 where
  pub resolved_phase_id : String
  pub resolved_phase_key : String
  pub gate_status : GateStatus
  pub decision_artifact_id : String
  pub revision_job_id : Option String
  pub is_completed : Bool

-- `a == b` of two texts that may be missing.
abbrev same_text : Option String → Option String → Bool
same_text none none = true
same_text (some a) (some b) = a == b
same_text _ _ = false

unfoldable pub matches_pending_gate : OrchestrationRunRecord → GateRequest → Bool
matches_pending_gate run g =
    is_gate_pending run.gate_status
    && is_text run.gate_type g.gate_type
    && is_text run.source_job_id g.source_job_id
    && is_text run.pending_phase_key g.success_phase_key
    && run.failure_phase_key == g.failure_phase_key

unfoldable pub matches_resolved_gate : OrchestrationRunRecord → GateResolution → Bool
matches_resolved_gate run g =
    is_text run.current_phase_id g.resolved_phase_id
    && run.current_phase_key == g.resolved_phase_key
    && same_gate_status run.gate_status g.gate_status
    && is_text run.decision_artifact_id g.decision_artifact_id
    && same_text run.revision_job_id g.revision_job_id
    && (g.is_completed && not (is_none run.completed_at) || not g.is_completed)

-- A run without a gate, in the given phase.
unfoldable pub fresh_run : String → String → PhaseRecord → String → OrchestrationRunRecord
fresh_run id session_id phase now = record {
  id = id;
  session_id = session_id;
  status = active;
  current_phase_id = some phase.id;
  current_phase_key = phase.phase_key;
  pending_phase_key = none;
  failure_phase_key = "revise";
  gate_type = none;
  gate_status = idle;
  source_job_id = none;
  handoff_job_id = none;
  review_id = none;
  approval_id = none;
  transition_artifact_id = none;
  decision_artifact_id = none;
  revision_job_id = none;
  requested_by_agent_id = none;
  transition_reason = none;
  started_at = now;
  decided_at = none;
  completed_at = none;
  created_at = now;
  updated_at = now;
}

-- The same, of a run that is there.
unfoldable pub restarted_run :
    OrchestrationRunRecord → PhaseRecord → String → OrchestrationRunRecord
restarted_run existing phase now = record existing {
  status = active;
  current_phase_id = some phase.id;
  current_phase_key = phase.phase_key;
  pending_phase_key = none;
  failure_phase_key = or_text existing.failure_phase_key "revise";
  gate_type = none;
  gate_status = idle;
  source_job_id = none;
  handoff_job_id = none;
  review_id = none;
  approval_id = none;
  transition_artifact_id = none;
  decision_artifact_id = none;
  revision_job_id = none;
  requested_by_agent_id = none;
  transition_reason = none;
  started_at = or_text existing.started_at now;
  decided_at = none;
  completed_at = none;
  updated_at = now;
}

unfoldable pub requested_run :
    OrchestrationRunRecord → GateRequest → String → OrchestrationRunRecord
requested_run run g now = record run {
  status = blocked;
  pending_phase_key = some g.success_phase_key;
  failure_phase_key = g.failure_phase_key;
  gate_type = some g.gate_type;
  gate_status = pending;
  source_job_id = some g.source_job_id;
  handoff_job_id = g.handoff_job_id;
  review_id = g.review_id;
  approval_id = g.approval_id;
  transition_artifact_id = g.transition_artifact_id;
  requested_by_agent_id = g.requested_by_agent_id;
  transition_reason = g.transition_reason;
  decided_at = none;
  updated_at = now;
}

unfoldable pub resolved_run :
    OrchestrationRunRecord → GateResolution → String → OrchestrationRunRecord
resolved_run run g now = record run {
  status = if g.is_completed then completed else active;
  current_phase_id = some g.resolved_phase_id;
  current_phase_key = g.resolved_phase_key;
  pending_phase_key = none;
  gate_status = g.gate_status;
  decision_artifact_id = some g.decision_artifact_id;
  revision_job_id = g.revision_job_id;
  decided_at = some now;
  completed_at = if g.is_completed then some now else run.completed_at;
  updated_at = now;
}

module _ ⦃env : Env⦄ where
  unfoldable pub create_or_restart :
      String
      → PhaseRecord
      → Option OrchestrationRunRecord
      → String
      → Exec World OrchestrationRunRecord
  create_or_restart session_id phase none now = do
    id ← new_id "orn_"
    create orchestration_run_repository (fresh_run id session_id phase now)
  create_or_restart session_id phase (some existing) now =
      if is_gate_pending existing.gate_status
      then pure existing
      else update orchestration_run_repository (restarted_run existing phase now)

  unfoldable pub start_run : String → Exec World OrchestrationRunRecord
  start_run session_id = do
    session ← get_session session_id
    active_phase ← get_active_phase session_id
    phase ←
        some_or_raise (lookup_error ("No active phase found for session " <> session_id))
          active_phase
    existing ← get_run_by_session session_id
    now ← utc_now
    create_or_restart session.id phase existing now

  unfoldable pub record_gate_request : String → GateRequest → Exec World OrchestrationRunRecord
  record_gate_request session_id g = do
    run ← start_run session_id
    if matches_pending_gate run g
        then pure run
        else (do now ← utc_now; update orchestration_run_repository (requested_run run g now))

  unfoldable pub record_gate_resolution :
      OrchestrationRunRecord → GateResolution → Exec World OrchestrationRunRecord
  record_gate_resolution run g =
      if matches_resolved_gate run g
      then pure run
      else (do now ← utc_now; update orchestration_run_repository (resolved_run run g now))
