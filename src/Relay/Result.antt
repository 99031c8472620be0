-- ===== src/Relay/Result.antt =====
-- `RelayExecutionResult` of app/services/relay_engine.py
use codex_collaboration_coor.Common.{String, Option}

pub record RelayExecutionResult : Type 0 where
  pub job_id : String
  pub session_id : String
  pub agent_id : String
  pub thread_id : Option String
  pub turn_id : Option String
  pub message_id : Option String
  pub event_type : String
