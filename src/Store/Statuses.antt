-- ===== src/Store/Statuses.antt =====
-- The columns whose values a CHECK of app/db/migrations/ or a module constant lists, as data types.
use codex_collaboration_coor.Common.{String, Bool, true, false}

-- jobs.status
pub data JobStatus : Type 0 where
  queued running input_required auth_required completed failed canceled : JobStatus
  paused_by_loop_guard : JobStatus

-- The text of the column.
unfoldable pub status_text : JobStatus → String
status_text queued = "queued"
status_text running = "running"
status_text input_required = "input_required"
status_text auth_required = "auth_required"
status_text completed = "completed"
status_text failed = "failed"
status_text canceled = "canceled"
status_text paused_by_loop_guard = "paused_by_loop_guard"

abbrev pub is_queued : JobStatus → Bool
is_queued queued = true
is_queued _ = false

abbrev pub is_input_required : JobStatus → Bool
is_input_required input_required = true
is_input_required _ = false

-- agent_runtimes.runtime_status
pub data RuntimeStatus : Type 0 where
  starting online offline crashed busy : RuntimeStatus

-- DISPATCHABLE_RUNTIME_STATUSES
abbrev pub is_dispatchable : RuntimeStatus → Bool
is_dispatchable starting = true
is_dispatchable online = true
is_dispatchable busy = true
is_dispatchable _ = false

-- sessions.loop_guard_status
pub data LoopGuardStatus : Type 0 where
  normal warning paused : LoopGuardStatus

-- rules.rule_type
pub data RuleType : Type 0 where
  relay review_required approval_escalation channel_routing_preference : RuleType

unfoldable pub rule_type_text : RuleType → String
rule_type_text relay = "relay"
rule_type_text review_required = "review_required"
rule_type_text approval_escalation = "approval_escalation"
rule_type_text channel_routing_preference = "channel_routing_preference"

-- approval_requests.status
pub data ApprovalStatus : Type 0 where
  pending accepted declined : ApprovalStatus
  approval_canceled : ApprovalStatus

abbrev pub is_pending : ApprovalStatus → Bool
is_pending pending = true
is_pending _ = false

unfoldable pub approval_status_text : ApprovalStatus → String
approval_status_text pending = "pending"
approval_status_text accepted = "accepted"
approval_status_text declined = "declined"
approval_status_text approval_canceled = "canceled"
