-- ===== src/Participants/Matrix.antt =====
-- What the matrix of app/services/participant_policy.py gives to each role.
use codex_collaboration_coor.Common.{
  String, ◌==◌, eq_iff, ◌&&◌, ◌||◌, not, Bool, true, false, Bool-cases, inl, inr, ◌≡◌, refl,
}
use codex_collaboration_coor.Participants.Policy.{
  ParticipantPolicy, normalize_role, policy_of_normalized, default_policy_for_role,
}

-- The six rights of a role that is not the lead, each as a test of the role.
abbrev Rights : String → ParticipantPolicy → Type 0
Rights role p =
    (p.can_target_other_agents ≡ (role == "planner"))
    × (p.review_only_actions ≡ (role == "reviewer"))
    × (p.can_create_job ≡ not (role == "reviewer" || role == "researcher" || role == "tester"))
    × (p.can_interrupt ≡ not (role == "reviewer" || role == "researcher" || role == "tester"))
    × (p.can_compact ≡ not (role == "reviewer" || role == "researcher" || role == "tester"))
    × (p.can_relay ≡ not (role == "reviewer"))

policy_of_normalized-Rights : (role : String) → Rights role (policy_of_normalized role)
unfolding policy_of_normalized
policy_of_normalized-Rights role = elim (Bool-cases (role == "planner")) [
  | inl e ↦ rw ((eq_iff role "planner").0 e) (refl, refl, refl, refl, refl, refl)
  | inr planner ↦ elim (Bool-cases (role == "builder")) [
    | inl e ↦ rw ((eq_iff role "builder").0 e) (refl, refl, refl, refl, refl, refl)
    | inr builder ↦ elim (Bool-cases (role == "reviewer")) [
      | inl e ↦ rw ((eq_iff role "reviewer").0 e) (refl, refl, refl, refl, refl, refl)
      | inr reviewer ↦ elim (Bool-cases (role == "researcher")) [
        | inl e ↦ rw ((eq_iff role "researcher").0 e) (refl, refl, refl, refl, refl, refl)
        | inr researcher ↦ elim (Bool-cases (role == "tester")) [
          | inl e ↦ rw ((eq_iff role "tester").0 e) (refl, refl, refl, refl, refl, refl)
          | inr tester ↦
              rw (planner, builder, reviewer, researcher, tester)
                (refl, refl, refl, refl, refl, refl)
        ]
      ]
    ]
  ]
]

-- By default the lead and the planners, and no one else, may target other agents; reviewers who do not
-- lead, and no one else, are held to reviews; all but reviewers, researchers and testers who do not
-- lead may create, interrupt and compact jobs; and all but reviewers who do not lead may relay. These
-- are all the rights of a policy. The role is normalised first.
pub default_policy_for_role-matrix :
    (role : String) (is_lead : Bool)
    → ((default_policy_for_role role is_lead).can_target_other_agents
        ≡ (is_lead || normalize_role role == "planner"))
      × ((default_policy_for_role role is_lead).review_only_actions
          ≡ (not is_lead && normalize_role role == "reviewer"))
      × ((default_policy_for_role role is_lead).can_create_job ≡ (
          is_lead
          || not (
              normalize_role role == "reviewer"
              || normalize_role role == "researcher"
              || normalize_role role == "tester")))
      × ((default_policy_for_role role is_lead).can_interrupt ≡ (
          is_lead
          || not (
              normalize_role role == "reviewer"
              || normalize_role role == "researcher"
              || normalize_role role == "tester")))
      × ((default_policy_for_role role is_lead).can_compact ≡ (
          is_lead
          || not (
              normalize_role role == "reviewer"
              || normalize_role role == "researcher"
              || normalize_role role == "tester")))
      × ((default_policy_for_role role is_lead).can_relay
          ≡ (is_lead || not (normalize_role role == "reviewer")))
unfolding default_policy_for_role
default_policy_for_role-matrix role true = (refl, refl, refl, refl, refl, refl)
default_policy_for_role-matrix role false = policy_of_normalized-Rights (normalize_role role)
