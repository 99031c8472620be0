-- ===== src/Store/Records.antt =====
-- The rows of app/repositories/ and the records that the services keep in memory.
pub mod Pools
pub mod Phases
pub mod Policies
pub mod Credentials
use codex_collaboration_coor.Common.{ℕ, String, Bool, Option}
use codex_collaboration_coor.Common.Int.{ℤ}
use codex_collaboration_coor.Store.Statuses.{
  JobStatus, RuntimeStatus, LoopGuardStatus, RuleType, ApprovalStatus,
}

pub record JobRecord : Type 0 where
  pub id : String
  pub session_id : String
  pub assigned_agent_id : String
  pub runtime_id : Option String
  pub source_message_id : Option String
  pub parent_job_id : Option String
  pub title : String
  pub instructions : Option String
  pub status : JobStatus
  pub hop_count : ℕ
  pub priority : String
  pub codex_runtime_id : Option String
  pub codex_thread_id : Option String
  pub active_turn_id : Option String
  pub last_known_turn_status : Option String
  pub result_summary : Option String
  pub error_code : Option String
  pub error_message : Option String
  pub started_at : Option String
  pub completed_at : Option String
  pub created_at : String
  pub updated_at : String
  pub channel_key : String

pub record JobEventRecord : Type 0 where
  pub id : String
  pub job_id : String
  pub session_id : String
  pub event_type : String
  pub event_payload_json : Option String
  pub created_at : String

pub record JobInputRecord : Type 0 where
  pub id : String
  pub job_id : String
  pub session_id : String
  pub input_type : String
  pub input_payload_json : Option String
  pub created_at : String

pub record AgentRecord : Type 0 where
  pub id : String
  pub display_name : String
  pub role : String
  pub is_lead_default : ℕ
  pub runtime_kind : String
  pub capabilities_json : Option String
  pub default_config_json : Option String
  pub status : String
  pub created_at : String
  pub updated_at : String

pub record AgentRuntimeRecord : Type 0 where
  pub id : String
  pub agent_id : String
  pub runtime_kind : String
  pub transport_kind : String
  pub transport_config_json : Option String
  pub workspace_path : Option String
  pub approval_policy : Option String
  pub sandbox_policy : Option String
  pub runtime_status : RuntimeStatus
  pub last_heartbeat_at : Option String
  pub created_at : String
  pub updated_at : String

pub record SessionRecord : Type 0 where
  pub id : String
  pub title : String
  pub goal : Option String
  pub status : String
  pub lead_agent_id : Option String
  pub active_phase_id : Option String
  pub loop_guard_status : LoopGuardStatus
  pub loop_guard_reason : Option String
  pub last_message_at : Option String
  pub created_at : String
  pub updated_at : String
  pub template_key : Option String

pub record SessionEventRecord : Type 0 where
  pub id : String
  pub session_id : String
  pub event_type : String
  pub actor_type : Option String
  pub actor_id : Option String
  pub event_payload_json : Option String
  pub created_at : String

pub record MessageRecord : Type 0 where
  pub id : String
  pub session_id : String
  pub sender_type : String
  pub sender_id : Option String
  pub message_type : String
  pub content : String
  pub content_format : String
  pub reply_to_message_id : Option String
  pub source_message_id : Option String
  pub visibility : String
  pub created_at : String
  pub updated_at : String
  pub channel_key : String

pub record RelayEdgeRecord : Type 0 where
  pub id : String
  pub session_id : String
  pub source_message_id : Option String
  pub source_job_id : Option String
  pub target_agent_id : String
  pub target_job_id : Option String
  pub relay_reason : String
  pub hop_number : ℕ
  pub created_at : String

pub record RuleRecord : Type 0 where
  pub id : String
  pub session_id : String
  pub rule_type : RuleType
  pub name : String
  pub description : Option String
  pub is_active : Bool
  pub priority : ℤ
  pub conditions_json : Option String
  pub actions_json : Option String
  pub created_at : String
  pub updated_at : String

pub record ApprovalRequestRecord : Type 0 where
  pub id : String
  pub job_id : String
  pub agent_id : String
  pub approval_type : String
  pub status : ApprovalStatus
  pub request_payload_json : String
  pub decision_payload_json : Option String
  pub requested_at : String
  pub resolved_at : Option String
  pub created_at : String
  pub updated_at : String

pub record ArtifactRecord : Type 0 where
  pub id : String
  pub job_id : String
  pub session_id : String
  pub source_message_id : Option String
  pub artifact_type : String
  pub title : String
  pub content_text : Option String
  pub file_path : Option String
  pub file_name : Option String
  pub mime_type : Option String
  pub size_bytes : Option ℤ
  pub checksum_sha256 : Option String
  pub metadata_json : Option String
  pub created_at : String
  pub updated_at : String
  pub channel_key : String

-- app/services/thread_mapping.py
pub record ThreadMappingRecord : Type 0 where
  pub id : String
  pub session_id : String
  pub agent_id : String
  pub runtime_id : Option String
  pub codex_thread_id : String
  pub is_active : Bool
  pub created_at : String
  pub updated_at : String
