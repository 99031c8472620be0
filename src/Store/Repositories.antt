-- ===== src/Store/Repositories.antt =====
-- The repositories of app/repositories/ that the job services use: the tables of `World` with the
-- CHECK constraints of app/db/migrations/, and the ordered queries.
pub mod Pools
pub mod Phases
pub mod Policies
pub mod Credentials
use codex_collaboration_coor.Common.{
  Bool, true, ◌&&◌, List, [], ◌∷◌, String, ◌==◌, one_of, select, if◌then◌else◌,
}
use codex_collaboration_coor.Common.Int.{lt_int, eq_int}
use codex_collaboration_coor.Exec.{Exec, gets}
use codex_collaboration_coor.Store.{World}
use codex_collaboration_coor.Store.Records.{
  JobRecord, JobEventRecord, JobInputRecord, AgentRecord, AgentRuntimeRecord, SessionRecord,
  SessionEventRecord, MessageRecord, RelayEdgeRecord, RuleRecord, ApprovalRequestRecord,
  ArtifactRecord,
}
use codex_collaboration_coor.Store.Table.{Table}
use codex_collaboration_coor.Store.Table.Rows.{order_by, text_before}

-- A table with no CHECK that a row of its record type can fail.
abbrev any_row : {R : Type 0} → R → Bool
any_row r = true

abbrev pub job_repository : Table JobRecord
job_repository = record {
  name = "Job";
  key = λ r. r.id;
  admits = λ r. one_of r.priority ("low" ∷ "normal" ∷ "high" ∷ []);
  rows = λ w. w.jobs;
  with_rows = λ w rs. record w { jobs = rs };
}

abbrev pub job_event_repository : Table JobEventRecord
job_event_repository = record {
  name = "Job event";
  key = λ r. r.id;
  admits = any_row;
  rows = λ w. w.job_events;
  with_rows = λ w rs. record w { job_events = rs };
}

abbrev pub job_input_repository : Table JobInputRecord
job_input_repository = record {
  name = "Job input";
  key = λ r. r.id;
  admits = any_row;
  rows = λ w. w.job_inputs;
  with_rows = λ w rs. record w { job_inputs = rs };
}

abbrev pub agent_repository : Table AgentRecord
agent_repository = record {
  name = "Agent";
  key = λ r. r.id;
  admits = λ r. one_of r.status ("active" ∷ "disabled" ∷ "archived" ∷ []);
  rows = λ w. w.agents;
  with_rows = λ w rs. record w { agents = rs };
}

abbrev pub runtime_repository : Table AgentRuntimeRecord
runtime_repository = record {
  name = "Agent runtime";
  key = λ r. r.id;
  admits = any_row;
  rows = λ w. w.runtimes;
  with_rows = λ w rs. record w { runtimes = rs };
}

abbrev pub session_repository : Table SessionRecord
session_repository = record {
  name = "Session";
  key = λ r. r.id;
  admits = λ r. one_of r.status ("draft" ∷ "active" ∷ "paused" ∷ "completed" ∷ "archived" ∷ []);
  rows = λ w. w.sessions;
  with_rows = λ w rs. record w { sessions = rs };
}

abbrev pub session_event_repository : Table SessionEventRecord
session_event_repository = record {
  name = "Session event";
  key = λ r. r.id;
  admits = any_row;
  rows = λ w. w.session_events;
  with_rows = λ w rs. record w { session_events = rs };
}

abbrev pub message_repository : Table MessageRecord
message_repository = record {
  name = "Message";
  key = λ r. r.id;
  admits = λ r.
      one_of r.sender_type ("user" ∷ "agent" ∷ "system" ∷ [])
      && one_of r.message_type (
          "chat" ∷ "command" ∷ "relay" ∷ "status" ∷ "approval_request" ∷ "approval_decision"
          ∷ "artifact_notice" ∷ [])
      && one_of r.content_format ("plain_text" ∷ "markdown" ∷ "json" ∷ [])
      && one_of r.visibility ("session" ∷ "system_only" ∷ "lead_only" ∷ []);
  rows = λ w. w.messages;
  with_rows = λ w rs. record w { messages = rs };
}

abbrev pub relay_edge_repository : Table RelayEdgeRecord
relay_edge_repository = record {
  name = "Relay edge";
  key = λ r. r.id;
  admits = λ r. one_of r.relay_reason ("mention" ∷ "policy_auto_relay" ∷ "manual_relay" ∷ []);
  rows = λ w. w.relay_edges;
  with_rows = λ w rs. record w { relay_edges = rs };
}

abbrev pub rule_repository : Table RuleRecord
rule_repository = record {
  name = "Rule";
  key = λ r. r.id;
  admits = any_row;
  rows = λ w. w.rules;
  with_rows = λ w rs. record w { rules = rs };
}

abbrev pub approval_repository : Table ApprovalRequestRecord
approval_repository = record {
  name = "Approval request";
  key = λ r. r.id;
  admits = λ r.
      one_of r.approval_type
        ("command_execution" ∷ "file_change" ∷ "network_access" ∷ "custom" ∷ []);
  rows = λ w. w.approvals;
  with_rows = λ w rs. record w { approvals = rs };
}

abbrev pub artifact_repository : Table ArtifactRecord
artifact_repository = record {
  name = "Artifact";
  key = λ r. r.id;
  admits =
      λ r. one_of r.artifact_type ("final_text" ∷ "diff" ∷ "file" ∷ "json" ∷ "log_excerpt" ∷ []);
  rows = λ w. w.artifacts;
  with_rows = λ w rs. record w { artifacts = rs };
}

-- `SELECT * FROM jobs ORDER BY created_at, id`
unfoldable pub list_jobs : Exec World (List JobRecord)
list_jobs = gets (λ w. order_by (text_before (λ r. r.created_at) (λ r. r.id)) w.jobs)

unfoldable pub list_jobs_by_agent : String → Exec World (List JobRecord)
list_jobs_by_agent agent_id = gets (λ w.
    order_by (text_before (λ r. r.created_at) (λ r. r.id))
      (select (λ r. r.assigned_agent_id == agent_id) w.jobs))

unfoldable pub list_runtimes : Exec World (List AgentRuntimeRecord)
list_runtimes = gets (λ w. order_by (text_before (λ r. r.created_at) (λ r. r.id)) w.runtimes)

unfoldable pub list_edges_by_session : String → Exec World (List RelayEdgeRecord)
list_edges_by_session session_id = gets (λ w.
    order_by (text_before (λ r. r.created_at) (λ r. r.id))
      (select (λ r. r.session_id == session_id) w.relay_edges))

-- `ORDER BY priority, created_at, id`
abbrev pub rule_before : RuleRecord → RuleRecord → Bool
rule_before x y =
    if lt_int x.priority y.priority
    then true
    else eq_int x.priority y.priority && text_before (λ r. r.created_at) (λ r. r.id) x y

unfoldable pub list_active_rules : String → Exec World (List RuleRecord)
list_active_rules session_id =
    gets
      (λ w. order_by rule_before (select (λ r. r.session_id == session_id && r.is_active) w.rules))
