-- ===== src/Tests/Dispatch.antt =====
-- Rules, the queue and the threads on the sample database.
use mathlib.Core.List.{foldl}
use codex_collaboration_coor.Common.{
  Option, ◌≡◌, refl, some, [], ◌∷◌, true, false, select, count_of, is_none, leb, ◌&&◌,
}
use codex_collaboration_coor.Common.Json.{end}
use codex_collaboration_coor.Exec.{ok}
use codex_collaboration_coor.Store.{World}
use codex_collaboration_coor.Store.Statuses.{queued}
use codex_collaboration_coor.Store.Records.{ThreadMappingRecord, AgentRuntimeRecord}
use codex_collaboration_coor.Rules.Matching.{subject_of, matches_rule}
use codex_collaboration_coor.Rules.Dispatch.{evaluate_rules, route, redirect, redirects}
use codex_collaboration_coor.Rules.Laws.{spec, evaluate_rules-spec, route-foldl}
use codex_collaboration_coor.Queue.{schedule_job}
use codex_collaboration_coor.Queue.Held.{Same, schedule_job-held}
use codex_collaboration_coor.Threads.Laws.{get_or_create_thread-twice}
use codex_collaboration_coor.Runtimes.{get_latest_runtime_for_agent}
use codex_collaboration_coor.Runtimes.Laws.{
  passes, belongs_to, is_outdone, get_latest_runtime_for_agent-newest,
}
use codex_collaboration_coor.Samples.{sample_env, sample_digits, world_with, job_with, review_rule}
use codex_collaboration_coor.Tests.{result}

abbrev reviewed : World
reviewed = record (world_with queued) { rules = review_rule ∷ [] }

schedule_job-held_example :
    Same reviewed
      (schedule_job ⦃env = sample_env⦄ sample_digits 3 "job_1" "manual"
        (some end)
        "manual_relay"
        reviewed).1
unfolding result
schedule_job-held_example =
    schedule_job-held ⦃env = sample_env⦄ sample_digits 3 "job_1" "manual" (some end) "manual_relay"
      reviewed (job_with queued) refl refl

evaluate_rules-spec_example :
    evaluate_rules ⦃env = sample_env⦄ (job_with queued) (review_rule ∷ [])
    ≡ spec ⦃env = sample_env⦄ (subject_of (job_with queued)) "general" [] (review_rule ∷ [])
evaluate_rules-spec_example =
    evaluate_rules-spec ⦃env = sample_env⦄ (job_with queued) (review_rule ∷ [])

route-foldl_example :
    route ⦃env = sample_env⦄ (subject_of (job_with queued)) "general" (review_rule ∷ [])
    ≡ foldl
        (λ c r. redirect ⦃env = sample_env⦄ r c)
        "general"
        (select
          (λ r.
            redirects r.rule_type
            && matches_rule ⦃env = sample_env⦄ r (subject_of (job_with queued)))
          (review_rule ∷ []))
route-foldl_example =
    route-foldl ⦃env = sample_env⦄ (subject_of (job_with queued)) "general" (review_rule ∷ [])

abbrev sample_thread : ThreadMappingRecord
sample_thread = record {
  id = "ctm_0";
  session_id = "ses_1";
  agent_id = "agt_1";
  runtime_id = some "rt_1";
  codex_thread_id = "thread_1";
  is_active = true;
  created_at = "now";
  updated_at = "now";
}

get_or_create_thread-twice_example :
    (sample_thread.codex_thread_id ≡ sample_thread.codex_thread_id) × (false ≡ false)
unfolding result
get_or_create_thread-twice_example =
    get_or_create_thread-twice ⦃env = sample_env⦄ "ses_1" "agt_1" (world_with queued) sample_thread
      sample_thread true false refl refl

get_latest_runtime_for_agent-newest_example :
    (found : Option AgentRuntimeRecord) × (get_latest_runtime_for_agent "agt_1" (world_with queued)
      ≡ (ok found, world_with queued))
    × (passes (belongs_to "agt_1") found ≡ true)
    × (is_outdone "agt_1" (world_with queued).runtimes found ≡ false)
    × (is_none found ≡ leb (count_of (belongs_to "agt_1") (world_with queued).runtimes) 0)
get_latest_runtime_for_agent-newest_example =
    get_latest_runtime_for_agent-newest "agt_1" (world_with queued)
