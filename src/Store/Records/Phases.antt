-- ===== src/Store/Records/Phases.antt =====
-- The rows of app/repositories/phases.py and app/repositories/orchestration_runs.py, with the columns
-- of a run that a CHECK lists as data types.
use codex_collaboration_coor.Common.{ℕ, String, Bool, true, false, Option}
use codex_collaboration_coor.Common.Int.{ℤ}

pub record PhaseRecord : Type 0 where
  pub id : String
  pub session_id : String
  pub phase_key : String
  pub title : String
  pub description : Option String
  pub relay_template_key : String
  pub default_channel_key : String
  pub sort_order : ℤ
  pub is_default : ℕ
  pub created_at : String
  pub updated_at : String

-- orchestration_runs.status
pub data RunStatus : Type 0 where
  active blocked completed : RunStatus

-- orchestration_runs.gate_status
pub data GateStatus : Type 0 where
  idle pending approved rejected : GateStatus

abbrev pub is_blocked : RunStatus → Bool
is_blocked blocked = true
is_blocked _ = false

abbrev pub is_gate_pending : GateStatus → Bool
is_gate_pending pending = true
is_gate_pending _ = false

abbrev pub same_gate_status : GateStatus → GateStatus → Bool
same_gate_status idle idle = true
same_gate_status pending pending = true
same_gate_status approved approved = true
same_gate_status rejected rejected = true
same_gate_status _ _ = false

pub record OrchestrationRunRecord : Type 0 where
  pub id : String
  pub session_id : String
  pub status : RunStatus
  pub current_phase_id : Option String
  pub current_phase_key : String
  pub pending_phase_key : Option String
  pub failure_phase_key : String
  pub gate_type : Option String
  pub gate_status : GateStatus
  pub source_job_id : Option String
  pub handoff_job_id : Option String
  pub review_id : Option String
  pub approval_id : Option String
  pub transition_artifact_id : Option String
  pub decision_artifact_id : Option String
  pub revision_job_id : Option String
  pub requested_by_agent_id : Option String
  pub transition_reason : Option String
  pub started_at : String
  pub decided_at : Option String
  pub completed_at : Option String
  pub created_at : String
  pub updated_at : String
