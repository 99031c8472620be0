-- ===== src/Store/Records/Pools.antt =====
-- The rows of app/repositories/runtime_pools.py, with the columns that a CHECK lists as data types.
use codex_collaboration_coor.Common.{ℕ, String, Bool, true, false, Option}
use codex_collaboration_coor.Common.Int.{ℤ}

-- work_contexts.context_status
pub data ContextStatus : Type 0 where
  active waiting_for_runtime fallback recovered released failed : ContextStatus

-- ACTIVE_CONTEXT_STATUSES
abbrev pub is_active_context : ContextStatus → Bool
is_active_context active = true
is_active_context fallback = true
is_active_context recovered = true
is_active_context _ = false

abbrev pub is_waiting : ContextStatus → Bool
is_waiting waiting_for_runtime = true
is_waiting _ = false

-- work_contexts.ownership_state
pub data OwnershipState : Type 0 where
  owned borrowed given_back : OwnershipState

abbrev pub is_owned : OwnershipState → Bool
is_owned owned = true
is_owned _ = false

abbrev pub is_borrowed : OwnershipState → Bool
is_borrowed borrowed = true
is_borrowed _ = false

abbrev pub is_released : OwnershipState → Bool
is_released given_back = true
is_released _ = false

pub record RuntimePoolRecord : Type 0 where
  pub id : String
  pub pool_key : String
  pub title : String
  pub description : Option String
  pub runtime_kind : String
  pub preferred_transport_kind : Option String
  pub required_capabilities_json : Option String
  pub fallback_pool_key : Option String
  pub max_active_contexts : ℤ
  pub default_isolation_mode : String
  pub pool_status : String
  pub metadata_json : Option String
  pub is_default : ℕ
  pub sort_order : ℤ
  pub created_at : String
  pub updated_at : String

pub record WorkContextRecord : Type 0 where
  pub id : String
  pub session_id : String
  pub job_id : String
  pub agent_id : String
  pub runtime_pool_id : String
  pub runtime_id : Option String
  pub context_key : String
  pub workspace_path : Option String
  pub isolation_mode : String
  pub context_status : ContextStatus
  pub ownership_state : OwnershipState
  pub selection_reason : Option String
  pub failure_reason : Option String
  pub created_at : String
  pub updated_at : String
