-- ===== src/Rules.antt =====
-- app/services/rule_engine.py
pub mod Matching
pub mod Dispatch
pub mod Laws
use codex_collaboration_coor.Common.{
  String, ◌<>◌, ◌==◌, Bool, true, false, Option, none, some, List, [], ◌∷◌, ◌++◌, if◌then◌else◌,
}
use codex_collaboration_coor.Common.Int.{ℤ}
use codex_collaboration_coor.Common.Json.{Fields, obj}
use codex_collaboration_coor.Exec.{Exec, Outcome, pure, some_or_raise, lookup_error, ◌>>=◌, ◌>>◌}
use codex_collaboration_coor.Store.{World}
use codex_collaboration_coor.Store.Statuses.{RuleType}
use codex_collaboration_coor.Store.Records.{JobRecord, RuleRecord}
use codex_collaboration_coor.Store.Env.{Env, utc_now, new_id}
use codex_collaboration_coor.Store.Table.{get, create, update}
use codex_collaboration_coor.Store.Repositories.{rule_repository, list_active_rules}
use Matching.{Subject}
use Dispatch.{RuleEvaluationResult, evaluate_rules, route}

module _ ⦃env : Env⦄ where
  abbrev dumped : Option Fields → Option String
  dumped none = none
  dumped (some fs) = some (env.dumps (obj fs))

  -- A type is one of RULE_TYPES by its own type.
  unfoldable pub create_rule :
      String
      → RuleType
      → String
      → Option String
      → ℤ
      → Bool
      → Option Fields
      → Option Fields
      → Exec World RuleRecord
  create_rule session_id rule_type name description priority is_active conditions actions = do
    now ← utc_now
    id ← new_id "rul_"
    create rule_repository (record {
      id = id;
      session_id = session_id;
      rule_type = rule_type;
      name = name;
      description = description;
      is_active = is_active;
      priority = priority;
      conditions_json = dumped conditions;
      actions_json = dumped actions;
      created_at = now;
      updated_at = now;
    })

  unfoldable pub ensure_rule : String → Exec World RuleRecord
  ensure_rule rule_id = do
    found ← get rule_repository rule_id
    some_or_raise (lookup_error ("Rule not found: " <> rule_id)) found

  unfoldable pub activate_rule : String → Exec World RuleRecord
  activate_rule rule_id = do
    rule ← ensure_rule rule_id
    now ← utc_now
    update rule_repository (record rule { is_active = true; updated_at = now })

  unfoldable pub deactivate_rule : String → Exec World RuleRecord
  deactivate_rule rule_id = do
    rule ← ensure_rule rule_id
    now ← utc_now
    update rule_repository (record rule { is_active = false; updated_at = now })

  unfoldable pub resolve_job_dispatch : JobRecord → Exec World RuleEvaluationResult
  resolve_job_dispatch job = do
    active_rules ← list_active_rules job.session_id
    pure (evaluate_rules job active_rules)

  unfoldable pub resolve_routing_channel :
      String → String → Option String → Option String → Exec World String
  resolve_routing_channel session_id channel_key agent_id content = do
    active_rules ← list_active_rules session_id
    pure (
        route (record { channel_key = some channel_key; agent_id = agent_id; content = content })
          channel_key active_rules)
