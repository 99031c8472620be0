-- ===== src/Policies/Gates.antt =====
-- The evaluation of a gate by app/services/policy_engine_v2.py.
use codex_collaboration_coor.Common.{
  String, ◌<>◌, false, not, Option, none, some, List, [], ◌∷◌, if◌then◌else◌,
}
use codex_collaboration_coor.Exec.{Exec, pure, ◌>>=◌}
use codex_collaboration_coor.Store.{World}
use codex_collaboration_coor.Store.Statuses.{status_text}
use codex_collaboration_coor.Store.Records.{JobRecord, SessionRecord}
use codex_collaboration_coor.Store.Records.Policies.{PolicyRecord}
use codex_collaboration_coor.Store.Records.Phases.{PhaseRecord}
use codex_collaboration_coor.Store.Env.{Env}
use codex_collaboration_coor.Store.Repositories.Policies.{list_policies}
use codex_collaboration_coor.Approvals.{get_job}
use codex_collaboration_coor.LoopGuard.{get_session}
use codex_collaboration_coor.Phases.{get_active_phase}
use codex_collaboration_coor.Policies.{
  Subject, Verdict, PolicyEvaluationResult, no_policy, record_decision,
}
use codex_collaboration_coor.Policies.Matching.{
  Context, context_fields, lookup, matches_policy, resolve_decision, resolve_reason,
}

-- The arguments of both evaluations; a review has no `failure_phase_key` and no `approval_type`.
pub record ApprovalGate : Type 0 where
  pub session_id : String
  pub source_job_id : String
  pub success_phase_key : String
  pub failure_phase_key : String
  pub approval_type : String
  pub requested_by_agent_id : Option String
  pub approver_agent_id : Option String
  pub notes : Option String

pub record ReviewGate : Type 0 where
  pub session_id : String
  pub source_job_id : String
  pub phase_key : String
  pub reviewer_agent_id : Option String
  pub requested_by_agent_id : Option String
  pub notes : Option String

abbrev key_of : Option PhaseRecord → Option String
key_of none = none
key_of (some phase) = some phase.phase_key

unfoldable pub approval_context :
    ApprovalGate → SessionRecord → JobRecord → Option PhaseRecord → Context
approval_context g session job phase =
    ("session_id", some session.id)
    ∷ ("template_key", session.template_key)
    ∷ ("current_phase_key", key_of phase)
    ∷ ("phase_key", some g.success_phase_key)
    ∷ ("failure_phase_key", some g.failure_phase_key)
    ∷ ("gate_type", some "approval_required")
    ∷ ("approval_type", some g.approval_type)
    ∷ ("source_job_id", some job.id)
    ∷ ("job_status", some (status_text job.status))
    ∷ ("assigned_agent_id", some job.assigned_agent_id)
    ∷ ("requested_by_agent_id", g.requested_by_agent_id)
    ∷ ("approver_agent_id", g.approver_agent_id)
    ∷ ("channel_key", some job.channel_key)
    ∷ ("priority", some job.priority)
    ∷ ("notes", g.notes)
    ∷ []

unfoldable pub review_context :
    ReviewGate → SessionRecord → JobRecord → Option PhaseRecord → Context
review_context g session job phase =
    ("session_id", some session.id)
    ∷ ("template_key", session.template_key)
    ∷ ("current_phase_key", key_of phase)
    ∷ ("phase_key", some g.phase_key)
    ∷ ("gate_type", some "review_required")
    ∷ ("source_job_id", some job.id)
    ∷ ("job_status", some (status_text job.status))
    ∷ ("assigned_agent_id", some job.assigned_agent_id)
    ∷ ("requested_by_agent_id", g.requested_by_agent_id)
    ∷ ("reviewer_agent_id", g.reviewer_agent_id)
    ∷ ("channel_key", some job.channel_key)
    ∷ ("priority", some job.priority)
    ∷ ("notes", g.notes)
    ∷ []

module _ ⦃env : Env⦄ where
  -- The loop over the candidates: the decision of the first active policy that matches.
  unfoldable pub decide_first : Context → List PolicyRecord → Verdict
  decide_first context [] = no_policy
  decide_first context (policy ∷ rest) =
      let later = decide_first context rest in
      if not policy.is_active
      then later
      else if policy.automation_paused
      then (if not (matches_policy policy context) then later else record {
        policy = some policy;
        decision = "allow";
        reason = "Policy " <> policy.name <> " is paused and gate handling fell back to manual";
      })
      else if not (matches_policy policy context)
      then later
      else record {
        policy = some policy;
        decision = resolve_decision policy;
        reason = resolve_reason policy (resolve_decision policy);
      }

  unfoldable pub evaluate_policies :
      SessionRecord → Subject → Context → Exec World PolicyEvaluationResult
  evaluate_policies session s context = do
    candidates ←
        list_policies (some session.id) session.template_key (lookup context "phase_key") false
    let verdict = decide_first context candidates
    saved ← record_decision verdict (some session.id) s (context_fields context)
    pure (record { verdict = verdict; decision_record = saved; context = context })

  unfoldable pub evaluate_approval_gate : ApprovalGate → Exec World PolicyEvaluationResult
  evaluate_approval_gate g = do
    session ← get_session g.session_id
    job ← get_job g.source_job_id
    phase ← get_active_phase g.session_id
    evaluate_policies session
        (record {
          subject_type = "approval_gate";
          subject_id = job.id;
          gate_type = "approval_required";
        })
        (approval_context g session job phase)

  unfoldable pub evaluate_review_gate : ReviewGate → Exec World PolicyEvaluationResult
  evaluate_review_gate g = do
    session ← get_session g.session_id
    job ← get_job g.source_job_id
    phase ← get_active_phase g.session_id
    evaluate_policies session
        (record {
          subject_type = "review_gate";
          subject_id = job.id;
          gate_type = "review_required";
        })
        (review_context g session job phase)
