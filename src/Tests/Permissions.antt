-- ===== src/Tests/Permissions.antt =====
-- Policies and permissions of a builder.
use Prim.Native.Char.{Char}
use Prim.Native.String.{[], ◌∷◌}
use codex_collaboration_coor.Common.{
  String, ◌<>◌, true, Bool-cases, inl, inr, subst, eq_iff, ◌≡◌, ◌&&◌, ◌||◌, ◌==◌, not, refl, false,
  none, some, Option,
}
use codex_collaboration_coor.Common.Json.{Json, Fields, bool, obj, end, field, get}
use codex_collaboration_coor.Store.Env.{Env}
use codex_collaboration_coor.Participants.Policy.{
  default_policy_for_role, normalize_role, observer_policy, as_dict, policy_to_json, resolve_policy,
}
use codex_collaboration_coor.Participants.Permissions.{SessionParticipant}
use codex_collaboration_coor.Participants.Laws.{resolve_policy-policy_to_json}
use codex_collaboration_coor.Participants.Matrix.{default_policy_for_role-matrix}
use codex_collaboration_coor.Samples.{env_with}

-- A codec for policies: one letter for each field, in the order of the fields' names.
abbrev letter : Option Json → String
letter (some (bool true)) = "t"
letter _ = "f"

abbrev write_policy : Json → String
write_policy (obj fs) =
    letter (get fs "can_compact")
    <> letter (get fs "can_create_job")
    <> letter (get fs "can_interrupt")
    <> letter (get fs "can_relay")
    <> letter (get fs "can_target_other_agents")
    <> letter (get fs "review_only_actions")
write_policy _ = "null"

abbrev flag : Char → Json
flag c = bool ((c ∷ []) == "t")

abbrev sorted_fields : Json → Json → Json → Json → Json → Json → Fields
sorted_fields compact create interrupt relay target review = field "can_compact" compact (
    field "can_create_job" create (
      field "can_interrupt" interrupt (
        field "can_relay" relay
          (field "can_target_other_agents" target (field "review_only_actions" review end)))))

abbrev read_policy : String → Option Json
read_policy (a ∷ b ∷ c ∷ d ∷ e ∷ f ∷ []) =
    some (obj (sorted_fields (flag a) (flag b) (flag c) (flag d) (flag e) (flag f)))
read_policy _ = none

abbrev codec_env : Env
codec_env = record (env_with read_policy "completed") { dumps = write_policy }

abbrev observer_fields : Fields
observer_fields =
    sorted_fields (bool false) (bool false) (bool false) (bool true) (bool false) (bool false)

abbrev IsRead : String → Type 0
IsRead name = get observer_fields name ≡ get (as_dict observer_policy) name

-- The codec gives the fields of the policy in their sorted order.
observer_fields-get : (name : String) → IsRead name
unfolding as_dict
observer_fields-get name = elim (Bool-cases ("can_compact" == name)) [
  | inl e ↦ subst IsRead ((eq_iff "can_compact" name).0 e) refl
  | inr compact ↦ elim (Bool-cases ("can_create_job" == name)) [
    | inl e ↦ subst IsRead ((eq_iff "can_create_job" name).0 e) refl
    | inr create ↦ elim (Bool-cases ("can_interrupt" == name)) [
      | inl e ↦ subst IsRead ((eq_iff "can_interrupt" name).0 e) refl
      | inr interrupt ↦ elim (Bool-cases ("can_relay" == name)) [
        | inl e ↦ subst IsRead ((eq_iff "can_relay" name).0 e) refl
        | inr relay ↦ elim (Bool-cases ("can_target_other_agents" == name)) [
          | inl e ↦ subst IsRead ((eq_iff "can_target_other_agents" name).0 e) refl
          | inr target ↦ elim (Bool-cases ("review_only_actions" == name)) [
            | inl e ↦ subst IsRead ((eq_iff "review_only_actions" name).0 e) refl
            | inr review ↦ rw (compact, create, interrupt, relay, target, review) refl
          ]
        ]
      ]
    ]
  ]
]

resolve_policy-policy_to_json_example :
    resolve_policy ⦃env = codec_env⦄ "builder"
      (some (policy_to_json ⦃env = codec_env⦄ observer_policy))
      false
    ≡ observer_policy
unfolding as_dict
resolve_policy-policy_to_json_example =
    resolve_policy-policy_to_json ⦃env = codec_env⦄ observer_policy "builder" false observer_fields
      refl observer_fields-get

abbrev builder : SessionParticipant
builder = record { agent_id = "agt_1"; role = "builder"; is_lead = false; policy_json = none }

abbrev only_builder : String → Option SessionParticipant
only_builder id = some builder

default_policy_for_role-matrix_example :
    ((default_policy_for_role " Reviewer " false).can_target_other_agents
      ≡ (false || normalize_role " Reviewer " == "planner"))
    × ((default_policy_for_role " Reviewer " false).review_only_actions
        ≡ (not false && normalize_role " Reviewer " == "reviewer"))
    × ((default_policy_for_role " Reviewer " false).can_create_job ≡ (
        false
        || not (
            normalize_role " Reviewer " == "reviewer"
            || normalize_role " Reviewer " == "researcher"
            || normalize_role " Reviewer " == "tester")))
    × ((default_policy_for_role " Reviewer " false).can_interrupt ≡ (
        false
        || not (
            normalize_role " Reviewer " == "reviewer"
            || normalize_role " Reviewer " == "researcher"
            || normalize_role " Reviewer " == "tester")))
    × ((default_policy_for_role " Reviewer " false).can_compact ≡ (
        false
        || not (
            normalize_role " Reviewer " == "reviewer"
            || normalize_role " Reviewer " == "researcher"
            || normalize_role " Reviewer " == "tester")))
    × ((default_policy_for_role " Reviewer " false).can_relay
        ≡ (false || not (normalize_role " Reviewer " == "reviewer")))
default_policy_for_role-matrix_example = default_policy_for_role-matrix " Reviewer " false
