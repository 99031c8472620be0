-- ===== src/Approvals.antt =====
-- app/services/approval_manager.py
pub mod Laws
use codex_collaboration_coor.Common.{String, ◌<>◌, ◌==◌, Option, none, some, if◌then◌else◌, or_now}
use codex_collaboration_coor.Common.Json.{Json, Fields, null, str, obj, end, field}
use codex_collaboration_coor.Exec.{
  Exec, pure, raise, some_or_raise, lookup_error, conflict_error, ◌>>=◌, ◌>>◌,
}
use codex_collaboration_coor.Store.{World}
use codex_collaboration_coor.Store.Statuses.{
  queued, running, canceled, is_input_required, ApprovalStatus, pending, accepted, declined,
  is_pending, approval_status_text,
}
use codex_collaboration_coor.Store.Records.{JobRecord, ApprovalRequestRecord}
use codex_collaboration_coor.Store.Env.{Env, utc_now, new_id}
use codex_collaboration_coor.Store.Table.{get, create, update}
use codex_collaboration_coor.Store.Repositories.{job_repository, approval_repository}
use codex_collaboration_coor.Events.{record_session_event, record_job_event}

pub record ApprovalDecision : Type 0 where
  pub approval : ApprovalRequestRecord
  pub job : JobRecord

-- `payload["policy_metadata"] = policy_metadata`, if there is one.
unfoldable pub with_metadata : Fields → Option Fields → Fields
with_metadata payload none = payload
with_metadata end (some m) = field "policy_metadata" (obj m) end
with_metadata (field k v fs) (some m) =
    let rest = with_metadata fs (some m) in
    if k == "policy_metadata" then field k (obj m) fs else field k v rest

abbrev obj_or_null : Option Fields → Json
obj_or_null none = null
obj_or_null (some fs) = obj fs

-- The job after a decision: accepted, or anything else.
unfoldable pub decided_job : JobRecord → ApprovalStatus → String → JobRecord
decided_job job accepted now = record job {
  status = if is_input_required job.status then queued else running;
  last_known_turn_status = some "accepted";
  started_at = or_now job.started_at now;
  updated_at = now;
}
decided_job job _ now = record job {
  status = canceled;
  last_known_turn_status = some "declined";
  completed_at = some now;
  updated_at = now;
}

module _ ⦃env : Env⦄ where
  -- `requested_at` is given and is not empty.
  unfoldable pub create_request :
      JobRecord → String → Fields → Option Fields → String → Exec World ApprovalRequestRecord
  create_request job approval_type request_payload policy_metadata created_at = do
    id ← new_id "apr_"
    created ← create approval_repository (record {
      id = id;
      job_id = job.id;
      agent_id = job.assigned_agent_id;
      approval_type = approval_type;
      status = pending;
      request_payload_json = env.dumps (obj (with_metadata request_payload policy_metadata));
      decision_payload_json = none;
      requested_at = created_at;
      resolved_at = none;
      created_at = created_at;
      updated_at = created_at;
    })
    record_job_event job "approval.required"
        (field "approval_id" (str created.id) (
          field "approval_type" (str approval_type)
            (field "policy_metadata" (obj_or_null policy_metadata) end)))
        created_at
    record_session_event job.session_id "approval.required" (some "system") none
        (field "job_id" (str job.id) (
          field "approval_id" (str created.id) (
            field "approval_type" (str approval_type)
              (field "policy_metadata" (obj_or_null policy_metadata) end))))
        created_at
    pure created

  unfoldable pub get_approval : String → Exec World ApprovalRequestRecord
  get_approval approval_id = do
    found ← get approval_repository approval_id
    some_or_raise (lookup_error ("Approval request not found: " <> approval_id)) found

  unfoldable pub get_job : String → Exec World JobRecord
  get_job job_id = do
    found ← get job_repository job_id
    some_or_raise (lookup_error ("Job not found: " <> job_id)) found

  unfoldable pub update_job_for_decision :
      JobRecord → ApprovalStatus → String → Exec World JobRecord
  update_job_for_decision job new_status now =
      update job_repository (decided_job job new_status now)

  abbrev dumped : Option Fields → Option String
  dumped none = none
  dumped (some fs) = some (env.dumps (obj fs))

  abbrev pub decided_approval :
      ApprovalRequestRecord → ApprovalStatus → Option Fields → String → ApprovalRequestRecord
  decided_approval approval new_status decision_payload now = record approval {
    status = new_status;
    decision_payload_json = dumped decision_payload;
    resolved_at = some now;
    updated_at = now;
  }

  -- The rest of `_resolve`, once the request is known to be pending.
  unfoldable pub resolve_pending :
      ApprovalRequestRecord → ApprovalStatus → Option Fields → Exec World ApprovalDecision
  resolve_pending approval new_status decision_payload = do
    now ← utc_now
    saved_approval ←
        update approval_repository (decided_approval approval new_status decision_payload now)
    job ← get_job approval.job_id
    updated_job ← update_job_for_decision job new_status now
    record_job_event job ("approval." <> approval_status_text new_status)
        (field "approval_id" (str approval.id)
          (field "decision_payload" (obj_or_null decision_payload) end))
        now
    record_session_event job.session_id ("approval." <> approval_status_text new_status)
        (some "system") none
        (field "job_id" (str job.id) (field "approval_id" (str approval.id) end)) now
    pure (record { approval = saved_approval; job = updated_job })

  -- `_resolve`; a status is one of APPROVAL_STATUSES by its type.
  unfoldable pub resolve : String → ApprovalStatus → Option Fields → Exec World ApprovalDecision
  resolve approval_id new_status decision_payload = do
    approval ← get_approval approval_id
    if is_pending approval.status
        then resolve_pending approval new_status decision_payload
        else raise (conflict_error ("Approval request already resolved: " <> approval_id))

  unfoldable pub accept : String → Option Fields → Exec World ApprovalDecision
  accept approval_id decision_payload = resolve approval_id accepted decision_payload

  unfoldable pub decline : String → Option Fields → Exec World ApprovalDecision
  decline approval_id decision_payload = resolve approval_id declined decision_payload
