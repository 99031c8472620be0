-- ===== src/Store/Records/Policies.antt =====
-- The rows of app/repositories/policies.py. Columns that hold 0 or 1 are read as `Bool`.
use codex_collaboration_coor.Common.{String, Bool, Option}
use codex_collaboration_coor.Common.Int.{ℤ}

pub record PolicyRecord : Type 0 where
  pub id : String
  pub session_id : Option String
  pub template_key : Option String
  pub phase_key : Option String
  pub policy_type : String
  pub name : String
  pub description : Option String
  pub is_active : Bool
  pub automation_paused : Bool
  pub pause_reason : Option String
  pub priority : ℤ
  pub conditions_json : Option String
  pub actions_json : Option String
  pub created_at : String
  pub updated_at : String

pub record PolicyDecisionRecord : Type 0 where
  pub id : String
  pub policy_id : Option String
  pub session_id : Option String
  pub subject_type : String
  pub subject_id : String
  pub gate_type : String
  pub decision : String
  pub matched : Bool
  pub reason : String
  pub context_json : String
  pub created_at : String
