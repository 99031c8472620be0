-- ===== src/Participants/Permissions.antt =====
-- app/services/permissions.py
use codex_collaboration_coor.Common.{
  String, ◌<>◌, ◌==◌, Bool, true, false, ◌&&◌, not, Option, none, some, if◌then◌else◌,
}
use codex_collaboration_coor.Exec.{Outcome, ok, err, permission_error}
use codex_collaboration_coor.Store.Env.{Env}
use codex_collaboration_coor.Participants.Policy.{
  ParticipantPolicy, default_policy_for_role, resolve_policy,
}

-- The columns of `SessionParticipantRecord` that the check reads.
pub record SessionParticipant : Type 0 where
  pub agent_id : String
  pub role : String
  pub is_lead : Bool
  pub policy_json : Option String

pub record CommandPermissionCheck : Type 0 where
  pub participant : Option SessionParticipant
  pub is_lead : Bool
  pub role : Option String
  pub policy : Option ParticipantPolicy

module _ ⦃env : Env⦄ where
  abbrev pub check_of : String → String → Option SessionParticipant → Outcome CommandPermissionCheck
  check_of session_id sender_id none = err (
      permission_error ("Agent " <> sender_id <> " is not a participant of session " <> session_id))
  check_of session_id sender_id (some p) = ok (record {
    participant = some p;
    is_lead = p.is_lead;
    role = some p.role;
    policy = some (resolve_policy p.role p.policy_json p.is_lead);
  })

  abbrev of_agent :
      String → Option String → (String → Option SessionParticipant) → Outcome CommandPermissionCheck
  of_agent session_id none participants =
      err (permission_error "sender_id is required for agent commands")
  of_agent session_id (some sender_id) participants =
      check_of session_id sender_id (participants sender_id)

  -- `participants` is `get_by_session_and_agent(session_id, ·)`.
  unfoldable pub resolve_sender :
      String
      → String
      → Option String
      → (String → Option SessionParticipant)
      → Outcome CommandPermissionCheck
  resolve_sender session_id sender_type sender_id participants =
      if sender_type == "agent"
      then of_agent session_id sender_id participants
      else ok (record { participant = none; is_lead = true; role = none; policy = none })

-- `command_permissions.get(command_name, False)`
unfoldable pub allows : ParticipantPolicy → String → Bool
allows policy command_name =
    if command_name == "new"
    then policy.can_create_job
    else if command_name == "interrupt"
    then policy.can_interrupt
    else if command_name == "compact"
    then policy.can_compact
    else false

abbrev not_in_session : SessionParticipant → String → Outcome (Unit {0})
not_in_session p command_name = err (
    permission_error
      ("Agent " <> p.agent_id <> " cannot run /" <> command_name <> " in this session"))

-- `target != own and not policy.can_target_other_agents`, or the return at the end.
abbrev pub check_target :
    SessionParticipant → ParticipantPolicy → String → String → Outcome (Unit {0})
check_target p policy command_name target_agent_id =
    if not (target_agent_id == p.agent_id) && not policy.can_target_other_agents
    then err (
        permission_error
          ("Agent " <> p.agent_id <> " cannot run /" <> command_name <> " on " <> target_agent_id))
    else ok tt

abbrev or_default : Option ParticipantPolicy → ParticipantPolicy → ParticipantPolicy
or_default none d = d
or_default (some p) d = p

abbrev role_of : Option String → String → String
role_of none own = own
role_of (some r) own = if r == "" then own else r

-- A participant that is not the lead.
unfoldable pub require_of :
    SessionParticipant → ParticipantPolicy → String → String → Outcome (Unit {0})
require_of p policy command_name target_agent_id =
    if command_name == "review"
    then (if policy.review_only_actions
        then check_target p policy command_name target_agent_id
        else not_in_session p command_name)
    else if allows policy command_name
    then check_target p policy command_name target_agent_id
    else not_in_session p command_name

unfoldable pub require_target_permission :
    String → CommandPermissionCheck → String → Outcome (Unit {0})
require_target_permission command_name sender target_agent_id = elim sender.participant [
  | none ↦ ok tt
  | some p ↦
      if sender.is_lead
      then ok tt
      else require_of p
          (or_default sender.policy
            (default_policy_for_role (role_of sender.role p.role) sender.is_lead))
          command_name target_agent_id
]
