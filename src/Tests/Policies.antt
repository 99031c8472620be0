-- ===== src/Tests/Policies.antt =====
-- A policy of the sample session.
use codex_collaboration_coor.Common.{true, false, none, some, [], ◌∷◌, ◌++◌, ◌≡◌, refl}
use codex_collaboration_coor.Common.Text.{lower, lower_char, contains}
use codex_collaboration_coor.Common.Int.{pos}
use codex_collaboration_coor.Common.Json.{str, arr, obj, nil, cons, end, field}
use codex_collaboration_coor.Exec.{ok}
use codex_collaboration_coor.Store.{World}
use codex_collaboration_coor.Store.Statuses.{queued}
use codex_collaboration_coor.Store.Records.Policies.{PolicyRecord}
use codex_collaboration_coor.Store.Repositories.Policies.{policies_in}
use codex_collaboration_coor.Policies.{Subject, PolicyEvaluationResult}
use codex_collaboration_coor.Policies.Matching.{Context, lookup, matches_expected}
use codex_collaboration_coor.Policies.Gates.{evaluate_policies}
use codex_collaboration_coor.Policies.Laws.{verdict_of, chosen, evaluate_policies-verdict_of}
use codex_collaboration_coor.Samples.{sample_env, sample_session, world_with}
use codex_collaboration_coor.Tests.{result}

abbrev auto_approve : PolicyRecord
auto_approve = record {
  id = "pol_1";
  session_id = some "ses_1";
  template_key = none;
  phase_key = none;
  policy_type = "conditional_auto_approve";
  name = "Small changes";
  description = none;
  is_active = true;
  automation_paused = false;
  pause_reason = none;
  priority = pos 10;
  conditions_json = none;
  actions_json = none;
  created_at = "then";
  updated_at = "then";
}

abbrev paused_policy : PolicyRecord
paused_policy = record auto_approve { id = "pol_2"; automation_paused = true; priority = pos 5 }

abbrev policy_world : World
policy_world = record (world_with queued) { policies = auto_approve ∷ paused_policy ∷ [] }

abbrev subject : Subject
subject = record {
  subject_type = "approval_gate";
  subject_id = "job_1";
  gate_type = "approval_required";
}

abbrev context : Context
context = ("phase_key", some "finalize") ∷ []

-- `{"not": {"any_of": ["low"]}}` and `{"contains": "FIX"}`
not_low :
    matches_expected
      (obj (field "not" (obj (field "any_of" (arr (cons (str "low") nil)) end)) end))
      (some "high")
    ≡ true
unfolding result
not_low = refl

says_fix : matches_expected (obj (field "contains" (str "FIX") end)) (some "please fix") ≡ true
unfolding result lower contains lower_char
says_fix = refl

-- The paused policy comes first.
decided :
    verdict_of ⦃env = sample_env⦄ (
      chosen ⦃env = sample_env⦄ context
        (policies_in (some "ses_1") none (lookup context "phase_key") false policy_world.policies))
    ≡ verdict_of ⦃env = sample_env⦄ (some paused_policy)
unfolding result
decided = refl

evaluate_policies-verdict_of_example :
    (r : PolicyEvaluationResult) × ((evaluate_policies ⦃env = sample_env⦄ sample_session subject
        context policy_world).0
      ≡ ok r)
    × (r.verdict
        ≡ verdict_of ⦃env = sample_env⦄ (
            chosen ⦃env = sample_env⦄ context (
              policies_in
                (some "ses_1")
                none
                (lookup context "phase_key")
                false
                policy_world.policies)))
    × (r.decision_record.decision ≡ r.verdict.decision)
    × ((evaluate_policies ⦃env = sample_env⦄ sample_session subject context
          policy_world).1.policy_decisions
        ≡ policy_world.policy_decisions ++ r.decision_record ∷ [])
evaluate_policies-verdict_of_example =
    evaluate_policies-verdict_of ⦃env = sample_env⦄ sample_session subject context policy_world refl
      refl
