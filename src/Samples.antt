-- ===== src/Samples.antt =====
-- A small database and an outside world for the tests: one session, one agent with a running runtime,
-- and a job.
use codex_collaboration_coor.Common.{ℕ, String, true, false, Option, none, some, [], ◌∷◌}
use codex_collaboration_coor.Common.Json.{Json, str, end, field}
use codex_collaboration_coor.Common.Int.{pos}
use codex_collaboration_coor.Store.{World, empty_world}
use codex_collaboration_coor.Store.Statuses.{
  JobStatus, online, RuntimeStatus, normal, review_required, pending,
}
use codex_collaboration_coor.Store.Records.{
  JobRecord, AgentRecord, AgentRuntimeRecord, SessionRecord, RuleRecord, ApprovalRequestRecord,
}
use codex_collaboration_coor.Store.Env.{Env, Reply, mapping}

-- The Codex process answers every call with a thread, a turn and a status.
abbrev answer : String → Reply
answer status = mapping (
    field "thread_id" (str "thread_1") (
      field "turn_id" (str "turn_1") (field "status" (str status) (field "text" (str "done") end))))

abbrev pub env_with : (String → Option Json) → String → Env
env_with loads status = record {
  now = λ n. "now";
  hex = λ n. "0";
  loads = loads;
  dumps = λ v. "{}";
  repr = λ v. "?";
  sha256_hex = λ s. s;
  token = λ n. "secret";
  iso_offset = λ s. some true;
  is_past = λ n s. false;
  join_path = λ parts. "path";
  bridge = λ n method params. some (answer status);
}

abbrev pub sample_env : Env
sample_env = env_with (λ s. none) "completed"

abbrev pub sample_digits : ℕ → String
sample_digits n = "some"

abbrev pub job_with : JobStatus → JobRecord
job_with status = record {
  id = "job_1";
  session_id = "ses_1";
  assigned_agent_id = "agt_1";
  runtime_id = none;
  source_message_id = none;
  parent_job_id = none;
  title = "Fix the tests";
  instructions = none;
  status = status;
  hop_count = 0;
  priority = "normal";
  codex_runtime_id = none;
  codex_thread_id = none;
  active_turn_id = none;
  last_known_turn_status = none;
  result_summary = none;
  error_code = none;
  error_message = none;
  started_at = none;
  completed_at = none;
  created_at = "then";
  updated_at = "then";
  channel_key = "general";
}

abbrev pub sample_agent : AgentRecord
sample_agent = record {
  id = "agt_1";
  display_name = "Builder";
  role = "builder";
  is_lead_default = 0;
  runtime_kind = "codex";
  capabilities_json = none;
  default_config_json = none;
  status = "active";
  created_at = "then";
  updated_at = "then";
}

abbrev pub runtime_with : RuntimeStatus → AgentRuntimeRecord
runtime_with status = record {
  id = "rt_1";
  agent_id = "agt_1";
  runtime_kind = "codex";
  transport_kind = "stdio";
  transport_config_json = none;
  workspace_path = none;
  approval_policy = none;
  sandbox_policy = none;
  runtime_status = status;
  last_heartbeat_at = none;
  created_at = "then";
  updated_at = "then";
}

abbrev pub sample_session : SessionRecord
sample_session = record {
  id = "ses_1";
  title = "Session";
  goal = none;
  status = "active";
  lead_agent_id = none;
  active_phase_id = none;
  loop_guard_status = normal;
  loop_guard_reason = none;
  last_message_at = none;
  created_at = "then";
  updated_at = "then";
  template_key = none;
}

abbrev pub sample_approval : ApprovalRequestRecord
sample_approval = record {
  id = "apr_1";
  job_id = "job_1";
  agent_id = "agt_1";
  approval_type = "custom";
  status = pending;
  request_payload_json = "{}";
  decision_payload_json = none;
  requested_at = "then";
  resolved_at = none;
  created_at = "then";
  updated_at = "then";
}

-- A rule that holds every job of the session for a review.
abbrev pub review_rule : RuleRecord
review_rule = record {
  id = "rul_1";
  session_id = "ses_1";
  rule_type = review_required;
  name = "Review";
  description = none;
  is_active = true;
  priority = pos 1;
  conditions_json = none;
  actions_json = none;
  created_at = "then";
  updated_at = "then";
}

abbrev pub world_with : JobStatus → World
world_with status = record empty_world {
  jobs = job_with status ∷ [];
  agents = sample_agent ∷ [];
  runtimes = runtime_with online ∷ [];
  sessions = sample_session ∷ [];
  approvals = sample_approval ∷ [];
}
