-- ===== src/Participants/Policy.antt =====
-- app/services/participant_policy.py
use codex_collaboration_coor.Common.{
  String, ◌==◌, Bool, true, false, ◌||◌, Option, none, some, List, [], ◌∷◌, if◌then◌else◌, one_of,
}
use codex_collaboration_coor.Common.Text.{strip, lower}
use codex_collaboration_coor.Common.Json.{Json, Fields, bool, obj, end, field, get, as_bool}
use codex_collaboration_coor.Store.Env.{Env}

pub record ParticipantPolicy : Type 0 where
  pub can_relay : Bool
  pub can_create_job : Bool
  pub can_interrupt : Bool
  pub can_compact : Bool
  pub review_only_actions : Bool
  pub can_target_other_agents : Bool

-- _ALLOWED_ROLES
abbrev pub allowed_roles : List String
allowed_roles = "planner" ∷ "builder" ∷ "reviewer" ∷ "researcher" ∷ "tester" ∷ []

unfoldable pub normalize_role : String → String
normalize_role role =
    let normalized = lower (strip role) in
    if one_of normalized allowed_roles then normalized else "builder"

unfoldable pub default_role_for_agent : String → Bool → String
default_role_for_agent agent_role true = "planner"
default_role_for_agent agent_role false = normalize_role agent_role

abbrev pub lead_policy : ParticipantPolicy
lead_policy = record {
  can_relay = true;
  can_create_job = true;
  can_interrupt = true;
  can_compact = true;
  review_only_actions = false;
  can_target_other_agents = true;
}

abbrev pub builder_policy : ParticipantPolicy
builder_policy = record {
  can_relay = true;
  can_create_job = true;
  can_interrupt = true;
  can_compact = true;
  review_only_actions = false;
  can_target_other_agents = false;
}

abbrev pub reviewer_policy : ParticipantPolicy
reviewer_policy = record {
  can_relay = false;
  can_create_job = false;
  can_interrupt = false;
  can_compact = false;
  review_only_actions = true;
  can_target_other_agents = false;
}

abbrev pub observer_policy : ParticipantPolicy
observer_policy = record {
  can_relay = true;
  can_create_job = false;
  can_interrupt = false;
  can_compact = false;
  review_only_actions = false;
  can_target_other_agents = false;
}

-- The matrix, by a normalised role.
unfoldable pub policy_of_normalized : String → ParticipantPolicy
policy_of_normalized normalized =
    if normalized == "planner"
    then lead_policy
    else if normalized == "builder"
    then builder_policy
    else if normalized == "reviewer"
    then reviewer_policy
    else if normalized == "researcher" || normalized == "tester"
    then observer_policy
    else builder_policy

unfoldable pub default_policy_for_role : String → Bool → ParticipantPolicy
default_policy_for_role role true = lead_policy
default_policy_for_role role false = policy_of_normalized (normalize_role role)

-- A value in place of a field, if there is one.
abbrev override : Bool → Option Bool → Bool
override b none = b
override b (some c) = c

-- `replace(base, **overrides)`, with the overrides read by a function of the field's name.
abbrev pub replace_fields : ParticipantPolicy → (String → Option Bool) → ParticipantPolicy
replace_fields base overrides = record {
  can_relay = override base.can_relay (overrides "can_relay");
  can_create_job = override base.can_create_job (overrides "can_create_job");
  can_interrupt = override base.can_interrupt (overrides "can_interrupt");
  can_compact = override base.can_compact (overrides "can_compact");
  review_only_actions = override base.review_only_actions (overrides "review_only_actions");
  can_target_other_agents =
      override base.can_target_other_agents (overrides "can_target_other_agents");
}

-- `asdict(policy)`
unfoldable pub as_dict : ParticipantPolicy → Fields
as_dict p = field "can_relay" (bool p.can_relay) (
    field "can_create_job" (bool p.can_create_job) (
      field "can_interrupt" (bool p.can_interrupt) (
        field "can_compact" (bool p.can_compact) (
          field "review_only_actions" (bool p.review_only_actions)
            (field "can_target_other_agents" (bool p.can_target_other_agents) end)))))

abbrev apply_payload : ParticipantPolicy → Option Json → ParticipantPolicy
apply_payload base (some (obj payload)) = replace_fields base (λ name. as_bool (get payload name))
apply_payload base _ = base

-- `dict[str, bool | None]`
abbrev pub Overrides : Type 0
Overrides = List (String × Option Bool)

unfoldable pub override_of : Overrides → String → Option Bool
override_of [] name = none
override_of ((k, v) ∷ rest) name = if k == name then v else override_of rest name

unfoldable pub policy_from_overrides : String → Overrides → Bool → ParticipantPolicy
policy_from_overrides role overrides is_lead =
    replace_fields (default_policy_for_role role is_lead) (override_of overrides)

module _ ⦃env : Env⦄ where
  unfoldable pub policy_to_json : ParticipantPolicy → String
  policy_to_json policy = env.dumps (obj (as_dict policy))

  unfoldable pub resolve_policy : String → Option String → Bool → ParticipantPolicy
  resolve_policy role none is_lead = default_policy_for_role role is_lead
  resolve_policy role (some policy_json) is_lead =
      apply_payload (default_policy_for_role role is_lead) (env.loads policy_json)
