-- ===== src/Participants/Laws.antt =====
-- The JSON of app/services/participant_policy.py and the checks of app/services/permissions.py.
use codex_collaboration_coor.Common.{
  String, ◌==◌, Bool, true, false, ◌||◌, some, ◌≡◌, refl, if◌then◌else◌,
}
use codex_collaboration_coor.Common.Json.{Fields, obj, get}
use codex_collaboration_coor.Exec.{Outcome, ok, err}
use codex_collaboration_coor.Store.Env.{Env}
use codex_collaboration_coor.Participants.Policy.{
  ParticipantPolicy, as_dict, policy_to_json, resolve_policy,
}
use codex_collaboration_coor.Participants.Permissions.{SessionParticipant, allows}

-- A policy that is written as JSON is read back whatever the role, as far as `json` reads back an object
-- that has the same value under each name as the one that it wrote, in whatever order.
pub resolve_policy-policy_to_json :
    ⦃env : Env⦄ (policy : ParticipantPolicy) (role : String) (is_lead : Bool) (read : Fields)
    → env.loads (env.dumps (obj (as_dict policy))) ≡ some (obj read)
    → ((name : String) → get read name ≡ get (as_dict policy) name)
    → resolve_policy role (some (policy_to_json policy)) is_lead ≡ policy
unfolding resolve_policy policy_to_json as_dict
resolve_policy-policy_to_json policy role is_lead read reads_back same =
    rw
      (
        reads_back,
        same "can_relay",
        same "can_create_job",
        same "can_interrupt",
        same "can_compact",
        same "review_only_actions",
        same "can_target_other_agents",
      )
      refl

-- The commands that a policy allows.
abbrev pub permits : ParticipantPolicy → String → Bool
permits policy command_name =
    if command_name == "review" then policy.review_only_actions else allows policy command_name

abbrev pub may_target : SessionParticipant → ParticipantPolicy → String → Bool
may_target p policy target = target == p.agent_id || policy.can_target_other_agents

abbrev pub is_ok : {A : Type 0} → Outcome A → Bool
is_ok (ok a) = true
is_ok (err e) = false
