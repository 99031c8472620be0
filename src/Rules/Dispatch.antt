-- ===== src/Rules/Dispatch.antt =====
-- The loops of `resolve_job_dispatch` and `resolve_routing_channel`, in app/services/rule_engine.py.
use codex_collaboration_coor.Common.{
  String, Bool, true, false, ◌&&◌, Option, none, some, List, [], ◌∷◌, ◌++◌, if◌then◌else◌,
}
use codex_collaboration_coor.Store.Statuses.{
  RuleType, relay, review_required, approval_escalation, channel_routing_preference, rule_type_text,
}
use codex_collaboration_coor.Store.Records.{JobRecord, RuleRecord}
use codex_collaboration_coor.Store.Env.{Env}
use codex_collaboration_coor.Rules.Matching.{
  Subject, subject_of, matches_rule, resolve_target_channel,
}

pub record RuleEvaluationResult : Type 0 where
  pub dispatch_allowed : Bool
  pub channel_key : String
  pub matched_rule_ids : List String
  pub hold_reason : Option String

-- `rule.rule_type in {"relay", "channel_routing_preference"}`
abbrev pub redirects : RuleType → Bool
redirects relay = true
redirects channel_routing_preference = true
redirects _ = false

-- `rule.rule_type in {"review_required", "approval_escalation"}`
abbrev pub holds : RuleType → Bool
holds review_required = true
holds approval_escalation = true
holds _ = false

abbrev pub or_channel : Option String → String → String
or_channel none channel = channel
or_channel (some c) channel = c

module _ ⦃env : Env⦄ where
  -- The channel after a rule that matched.
  unfoldable pub redirect : RuleRecord → String → String
  redirect rule channel_key =
      if redirects rule.rule_type
      then or_channel (resolve_target_channel rule) channel_key
      else channel_key

  -- The `for` loop of `resolve_job_dispatch`, with its `break`.
  unfoldable pub dispatch_loop :
      Subject → String → List String → List RuleRecord → RuleEvaluationResult
  dispatch_loop s channel_key matched [] = record {
    dispatch_allowed = true;
    channel_key = channel_key;
    matched_rule_ids = matched;
    hold_reason = none;
  }
  dispatch_loop s channel_key matched (rule ∷ rules) = elim (matches_rule rule s) [
    | false ↦ dispatch_loop s channel_key matched rules
    | true ↦ elim (holds rule.rule_type) [
      | true ↦ record {
        dispatch_allowed = false;
        channel_key = redirect rule channel_key;
        matched_rule_ids = matched ++ rule.id ∷ [];
        hold_reason = some (rule_type_text rule.rule_type);
      }
      | false ↦ dispatch_loop s (redirect rule channel_key) (matched ++ rule.id ∷ []) rules
    ]
  ]

  unfoldable pub evaluate_rules : JobRecord → List RuleRecord → RuleEvaluationResult
  evaluate_rules job rules = dispatch_loop (subject_of job) job.channel_key [] rules

  -- The `for` loop of `resolve_routing_channel`.
  unfoldable pub route : Subject → String → List RuleRecord → String
  route s resolved_channel [] = resolved_channel
  route s resolved_channel (rule ∷ rules) =
      route s
        (if redirects rule.rule_type && matches_rule rule s
          then or_channel (resolve_target_channel rule) resolved_channel
          else resolved_channel)
        rules
