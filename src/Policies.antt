-- ===== src/Policies.antt =====
-- app/services/policy_engine_v2.py
pub mod Matching
pub mod Gates
pub mod Laws
use codex_collaboration_coor.Common.{
  ℕ, String, ◌<>◌, ◌==◌, ◌&&◌, Bool, true, false, not, Option, none, some, List, [], ◌∷◌, one_of,
  or_else, is_none, if◌then◌else◌,
}
use codex_collaboration_coor.Common.Int.{ℤ}
use codex_collaboration_coor.Common.Json.{Json, Fields, end, field, str, obj, or_null}
use codex_collaboration_coor.Exec.{
  Exec, pure, raise, some_or_raise, lookup_error, value_error, ◌>>=◌, ◌>>◌,
}
use codex_collaboration_coor.Store.{World}
use codex_collaboration_coor.Store.Statuses.{status_text}
use codex_collaboration_coor.Store.Records.{JobRecord, SessionRecord}
use codex_collaboration_coor.Store.Records.Policies.{PolicyRecord, PolicyDecisionRecord}
use codex_collaboration_coor.Store.Records.Phases.{PhaseRecord}
use codex_collaboration_coor.Store.Env.{Env, utc_now, new_id}
use codex_collaboration_coor.Store.Table.{get, create, update}
use codex_collaboration_coor.Store.Repositories.Policies.{
  policy_repository, policy_decision_repository, policy_types, list_policies,
}
use codex_collaboration_coor.Events.{record_session_event}
use codex_collaboration_coor.Approvals.{get_job}
use codex_collaboration_coor.LoopGuard.{get_session}
use codex_collaboration_coor.Phases.{get_active_phase}
use codex_collaboration_coor.Policies.Matching.{Context}

-- The arguments of `create_policy`.
pub record NewPolicy : Type 0 where
  pub session_id : Option String
  pub template_key : Option String
  pub phase_key : Option String
  pub policy_type : String
  pub name : String
  pub description : Option String
  pub is_active : Bool
  pub automation_paused : Bool
  pub pause_reason : Option String
  pub priority : ℤ
  pub conditions : Option Fields
  pub actions : Option Fields

-- What is decided, of which gate.
pub record Subject : Type 0 where
  pub subject_type : String
  pub subject_id : String
  pub gate_type : String

-- A decision, with the policy that makes it.
pub record Verdict : Type 0 where
  pub policy : Option PolicyRecord
  pub decision : String
  pub reason : String

pub record PolicyEvaluationResult : Type 0 where
  pub verdict : Verdict
  pub decision_record : PolicyDecisionRecord
  pub context : Context

abbrev id_of : Option PolicyRecord → Option String
id_of none = none
id_of (some p) = some p.id

abbrev pub no_policy : Verdict
no_policy = record { policy = none; decision = "allow"; reason = "no_matching_policy" }

module _ ⦃env : Env⦄ where
  abbrev dumped : Option Fields → Option String
  dumped none = none
  dumped (some fs) = some (env.dumps (obj fs))

  unfoldable pub new_policy : NewPolicy → String → String → PolicyRecord
  new_policy p id now = record {
    id = id;
    session_id = p.session_id;
    template_key = p.template_key;
    phase_key = p.phase_key;
    policy_type = p.policy_type;
    name = p.name;
    description = p.description;
    is_active = p.is_active;
    automation_paused = p.automation_paused;
    pause_reason = p.pause_reason;
    priority = p.priority;
    conditions_json = dumped p.conditions;
    actions_json = dumped p.actions;
    created_at = now;
    updated_at = now;
  }

  unfoldable pub create_policy : NewPolicy → Exec World PolicyRecord
  create_policy p =
      if is_none p.session_id && is_none p.template_key && is_none p.phase_key
      then raise (value_error "Policy scope requires session_id, template_key, or phase_key")
      else if not (one_of p.policy_type policy_types)
      then raise (value_error ("Unsupported policy type: " <> p.policy_type))
      else (do now ← utc_now; id ← new_id "pol_"; create policy_repository (new_policy p id now))

  unfoldable pub get_policy : String → Exec World PolicyRecord
  get_policy policy_id = do
    found ← get policy_repository policy_id
    some_or_raise (lookup_error ("Policy not found: " <> policy_id)) found

  -- `activate_policy` and `deactivate_policy`
  unfoldable pub set_active : Bool → String → Exec World PolicyRecord
  set_active is_active policy_id = do
    policy ← get_policy policy_id
    now ← utc_now
    update policy_repository (record policy { is_active = is_active; updated_at = now })

  unfoldable pub decision_row :
      Verdict → Option String → Subject → Fields → String → String → PolicyDecisionRecord
  decision_row v session_id s context id now = record {
    id = id;
    policy_id = id_of v.policy;
    session_id = session_id;
    subject_type = s.subject_type;
    subject_id = s.subject_id;
    gate_type = s.gate_type;
    decision = v.decision;
    matched = not (is_none v.policy);
    reason = v.reason;
    context_json = env.dumps (obj context);
    created_at = now;
  }

  unfoldable pub announce :
      Verdict
      → Option String
      → Subject
      → PolicyDecisionRecord
      → String
      → Exec World PolicyDecisionRecord
  announce v none s saved now = pure saved
  announce v (some session_id) s saved now = do
    record_session_event session_id "policy.decision.recorded" (some "system") none
        (field "policy_id" (or_null saved.policy_id) (
          field "subject_type" (str s.subject_type) (
            field "subject_id" (str s.subject_id) (
              field "gate_type" (str s.gate_type)
                (field "decision" (str v.decision) (field "reason" (str v.reason) end))))))
        now
    pure saved

  unfoldable pub record_decision :
      Verdict → Option String → Subject → Fields → Exec World PolicyDecisionRecord
  record_decision v session_id s context = do
    now ← utc_now
    id ← new_id "pdc_"
    saved ← create policy_decision_repository (decision_row v session_id s context id now)
    announce v session_id s saved now

  abbrev control : PolicyRecord → Subject
  control p = record {
    subject_type = "policy_control";
    subject_id = p.id;
    gate_type = "automation_control";
  }

  abbrev control_context : PolicyRecord → Option String → Fields
  control_context p reason = field "reason" (or_null reason) (field "policy_id" (str p.id) end)

  unfoldable pub pause_automation : String → Option String → Exec World PolicyRecord
  pause_automation policy_id reason = do
    policy ← get_policy policy_id
    now ← utc_now
    saved ←
        update policy_repository
          (record policy { automation_paused = true; pause_reason = reason; updated_at = now })
    record_decision
        (record {
          policy = some saved;
          decision = "paused";
          reason = or_else reason "automation paused";
        })
        saved.session_id (control saved) (control_context saved reason)
    pure saved

  unfoldable pub resume_automation : String → Option String → Exec World PolicyRecord
  resume_automation policy_id reason = do
    policy ← get_policy policy_id
    now ← utc_now
    saved ←
        update policy_repository
          (record policy { automation_paused = false; pause_reason = none; updated_at = now })
    record_decision
        (record {
          policy = some saved;
          decision = "resumed";
          reason = or_else reason "automation resumed";
        })
        saved.session_id (control saved) (control_context saved reason)
    pure saved
