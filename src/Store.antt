-- ===== src/Store.antt =====
-- What the services share: the tables of the SQLite database, the in-memory thread mappings, and how
-- often the clock, the id generator and the Codex bridge have been asked.
pub mod Statuses
pub mod Records
pub mod Table
pub mod Env
pub mod Repositories
pub mod Keeps
pub mod Ensures
use codex_collaboration_coor.Common.{ℕ, List, [], ◌∷◌}
use Records.{
  JobRecord, JobEventRecord, JobInputRecord, AgentRecord, AgentRuntimeRecord, SessionRecord,
  SessionEventRecord, MessageRecord, RelayEdgeRecord, RuleRecord, ApprovalRequestRecord,
  ArtifactRecord, ThreadMappingRecord,
}
use Records.Pools.{RuntimePoolRecord, WorkContextRecord}
use Records.Phases.{PhaseRecord, OrchestrationRunRecord}
use Records.Policies.{PolicyRecord, PolicyDecisionRecord}
use Records.Credentials.{IntegrationPrincipalRecord, IntegrationCredentialRecord}

pub record World : Type 0 where
  pub jobs : List JobRecord
  pub job_events : List JobEventRecord
  pub job_inputs : List JobInputRecord
  pub agents : List AgentRecord
  pub runtimes : List AgentRuntimeRecord
  pub sessions : List SessionRecord
  pub session_events : List SessionEventRecord
  pub messages : List MessageRecord
  pub relay_edges : List RelayEdgeRecord
  pub rules : List RuleRecord
  pub approvals : List ApprovalRequestRecord
  pub artifacts : List ArtifactRecord
  pub threads : List ThreadMappingRecord
  pub runtime_pools : List RuntimePoolRecord
  pub work_contexts : List WorkContextRecord
  pub phases : List PhaseRecord
  pub orchestration_runs : List OrchestrationRunRecord
  pub policies : List PolicyRecord
  pub policy_decisions : List PolicyDecisionRecord
  pub integration_principals : List IntegrationPrincipalRecord
  pub integration_credentials : List IntegrationCredentialRecord
  pub clock_reads : ℕ
  pub ids_drawn : ℕ
  pub bridge_calls : ℕ

abbrev pub empty_world : World
empty_world = record {
  jobs = [];
  job_events = [];
  job_inputs = [];
  agents = [];
  runtimes = [];
  sessions = [];
  session_events = [];
  messages = [];
  relay_edges = [];
  rules = [];
  approvals = [];
  artifacts = [];
  threads = [];
  runtime_pools = [];
  work_contexts = [];
  phases = [];
  orchestration_runs = [];
  policies = [];
  policy_decisions = [];
  integration_principals = [];
  integration_credentials = [];
  clock_reads = 0;
  ids_drawn = 0;
  bridge_calls = 0;
}
