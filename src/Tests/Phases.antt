-- ===== src/Tests/Phases.antt =====
-- The phases and the run of the sample session.
use codex_collaboration_coor.Common.{true, none, some, [], ◌∷◌, ◌≡◌, refl}
use codex_collaboration_coor.Exec.{ok}
use codex_collaboration_coor.Store.{World}
use codex_collaboration_coor.Store.Statuses.{queued}
use codex_collaboration_coor.Store.Records.Phases.{
  PhaseRecord, OrchestrationRunRecord, blocked, completed, pending, approved,
}
use codex_collaboration_coor.Phases.{ensure_default_phases, get_active_phase}
use codex_collaboration_coor.Phases.Laws.{ensure_default_phases-again}
use codex_collaboration_coor.Phases.Active.{get_active_phase-some}
use codex_collaboration_coor.Orchestration.{
  GateRequest, GateResolution, start_run, record_gate_resolution,
}
use codex_collaboration_coor.Orchestration.Laws.{
  Coherent, start, request, resolve, after_calls, after_calls-Coherent,
}
use codex_collaboration_coor.Orchestration.Again.{record_gate_resolution-again, start_run-pending}
use codex_collaboration_coor.Samples.{sample_env, sample_session, world_with}
use codex_collaboration_coor.Tests.{result}

ensure_default_phases-again_example :
    (ensure_default_phases ⦃env = sample_env⦄ "ses_1"
      (ensure_default_phases ⦃env = sample_env⦄ "ses_1" (world_with queued)).1).1
    ≡ (ensure_default_phases ⦃env = sample_env⦄ "ses_1" (world_with queued)).1
ensure_default_phases-again_example =
    ensure_default_phases-again ⦃env = sample_env⦄ "ses_1" (world_with queued)

get_active_phase-some_example :
    (p : PhaseRecord) × ((get_active_phase ⦃env = sample_env⦄ "ses_1" (world_with queued)).0
      ≡ ok (some p))
    × (p.session_id ≡ "ses_1")
unfolding result
get_active_phase-some_example =
    get_active_phase-some ⦃env = sample_env⦄ "ses_1" (world_with queued) sample_session refl

abbrev gate : GateRequest
gate = record {
  gate_type = "approval_required";
  success_phase_key = "finalize";
  failure_phase_key = "revise";
  source_job_id = "job_1";
  handoff_job_id = none;
  review_id = none;
  approval_id = none;
  transition_artifact_id = none;
  requested_by_agent_id = none;
  transition_reason = none;
}

abbrev approval : GateResolution
approval = record {
  resolved_phase_id = "ph_0";
  resolved_phase_key = "finalize";
  gate_status = approved;
  decision_artifact_id = "art_1";
  revision_job_id = none;
  is_completed = true;
}

abbrev waiting_run : OrchestrationRunRecord
waiting_run = record {
  id = "orn_0";
  session_id = "ses_1";
  status = blocked;
  current_phase_id = some "ph_0";
  current_phase_key = "planning";
  pending_phase_key = some "finalize";
  failure_phase_key = "revise";
  gate_type = some "approval_required";
  gate_status = pending;
  source_job_id = some "job_1";
  handoff_job_id = none;
  review_id = none;
  approval_id = none;
  transition_artifact_id = none;
  decision_artifact_id = none;
  revision_job_id = none;
  requested_by_agent_id = none;
  transition_reason = none;
  started_at = "now";
  decided_at = none;
  completed_at = none;
  created_at = "now";
  updated_at = "now";
}

abbrev waiting_world : World
waiting_world = after_calls ⦃env = sample_env⦄ (request "ses_1" gate ∷ []) (world_with queued)

requested : waiting_world.orchestration_runs ≡ waiting_run ∷ []
unfolding result
requested = refl

after_calls-Coherent_example : Coherent (
    after_calls ⦃env = sample_env⦄
      (start "ses_1" ∷ request "ses_1" gate ∷ resolve waiting_run approval ∷ [])
      (world_with queued))
unfolding result
after_calls-Coherent_example =
    after_calls-Coherent ⦃env = sample_env⦄
      (start "ses_1" ∷ request "ses_1" gate ∷ resolve waiting_run approval ∷ []) (world_with queued)
      refl refl

start_run-pending_example :
    (waiting_run ≡ waiting_run)
    × ((start_run ⦃env = sample_env⦄ "ses_1" waiting_world).1.orchestration_runs
        ≡ waiting_world.orchestration_runs)
unfolding result
start_run-pending_example =
    start_run-pending ⦃env = sample_env⦄ "ses_1" waiting_run waiting_run waiting_world refl refl
      refl

abbrev decided_run : OrchestrationRunRecord
decided_run = record waiting_run {
  status = completed;
  current_phase_key = "finalize";
  pending_phase_key = none;
  gate_status = approved;
  decision_artifact_id = some "art_1";
  decided_at = some "now";
  completed_at = some "now";
}

record_gate_resolution-again_example :
    record_gate_resolution ⦃env = sample_env⦄ decided_run approval (world_with queued)
    ≡ (ok decided_run, world_with queued)
unfolding result
record_gate_resolution-again_example =
    record_gate_resolution-again ⦃env = sample_env⦄ waiting_run decided_run approval waiting_world
      (world_with queued) refl
