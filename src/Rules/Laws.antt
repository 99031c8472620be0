-- ===== src/Rules/Laws.antt =====
-- What the loops of app/services/rule_engine.py compute, said without a loop state.
use mathlib.Core.List.{foldl, append-nil, append_assoc}
use codex_collaboration_coor.Common.{
  String, true, ◌&&◌, not, Bool-cases, inl, inr, Option, none, some, List, [], ◌∷◌, ◌++◌, map, ◌≡◌,
  refl, sym, ◌∙◌, ap, if◌then◌else◌, select, find_first, any_of,
}
use codex_collaboration_coor.Store.Statuses.{rule_type_text}
use codex_collaboration_coor.Store.Records.{JobRecord, RuleRecord}
use codex_collaboration_coor.Store.Env.{Env}
use codex_collaboration_coor.Rules.Matching.{
  Subject, subject_of, matches_rule, resolve_target_channel,
}
use codex_collaboration_coor.Rules.Dispatch.{
  RuleEvaluationResult, redirects, holds, redirect, or_channel, dispatch_loop, evaluate_rules,
  route,
}

-- The rules up to and with the first one that holds a job.
abbrev pub until_hold : List RuleRecord → List RuleRecord
until_hold [] = []
until_hold (r ∷ rs) = let rest = until_hold rs in if holds r.rule_type then r ∷ [] else r ∷ rest

abbrev pub hold_reason_of : Option RuleRecord → Option String
hold_reason_of none = none
hold_reason_of (some r) = some (rule_type_text r.rule_type)

module _ ⦃env : Env⦄ where
  abbrev pub matching : Subject → List RuleRecord → List RuleRecord
  matching s rules = select (λ r. matches_rule r s) rules

  -- The result of the loop from a channel and the ids matched before.
  abbrev pub spec : Subject → String → List String → List RuleRecord → RuleEvaluationResult
  spec s channel before rules = record {
    dispatch_allowed = not (any_of (λ r. holds r.rule_type) (matching s rules));
    channel_key = foldl (λ c r. redirect r c) channel (until_hold (matching s rules));
    matched_rule_ids = before ++ map (λ r. r.id) (until_hold (matching s rules));
    hold_reason = hold_reason_of (find_first (λ r. holds r.rule_type) (matching s rules));
  }

  regroup :
      (s : Subject) (channel : String) (before : List String) (r : RuleRecord)
      (rs : List RuleRecord)
      → spec s channel (before ++ r.id ∷ []) rs ≡ record (spec s channel [] rs) {
        matched_rule_ids = before ++ r.id ∷ map (λ r. r.id) (until_hold (matching s rs));
      }
  regroup s channel before r rs =
      ap (λ ids. record (spec s channel [] rs) { matched_rule_ids = ids })
        (append_assoc before (r.id ∷ []) (map (λ r. r.id) (until_hold (matching s rs))))

  dispatch_loop-spec :
      (s : Subject) (channel : String) (before : List String) (rules : List RuleRecord)
      → dispatch_loop s channel before rules ≡ spec s channel before rules
  unfolding dispatch_loop
  dispatch_loop-spec s channel before [] =
      ap
        (λ ids. record {
          dispatch_allowed = true;
          channel_key = channel;
          matched_rule_ids = ids;
          hold_reason = none;
        })
        (sym (append-nil before))
  dispatch_loop-spec s channel before (r ∷ rs) = elim (Bool-cases (matches_rule r s)) [
    | inr no_match ↦ rw (no_match, dispatch_loop) (dispatch_loop-spec s channel before rs)
    | inl match ↦ elim (Bool-cases (holds r.rule_type)) [
      | inl hold ↦ rw (match, hold, dispatch_loop) refl
      | inr free ↦
          rw (match, free, dispatch_loop)
            (dispatch_loop-spec s (redirect r channel) (before ++ r.id ∷ []) rs
              ∙ regroup s (redirect r channel) before r rs)
    ]
  ]

  -- `resolve_job_dispatch` redirects by the matching rules up to and with the first one that holds
  -- the job, reports the ids of those, and dispatches exactly where no matching rule holds.
  pub evaluate_rules-spec :
      (job : JobRecord) (rules : List RuleRecord)
      → evaluate_rules job rules ≡ spec (subject_of job) job.channel_key [] rules
  unfolding evaluate_rules
  evaluate_rules-spec job rules = dispatch_loop-spec (subject_of job) job.channel_key [] rules

  redirect-redirects :
      (r : RuleRecord) (channel : String)
      → redirects r.rule_type ≡ true
      → redirect r channel ≡ or_channel (resolve_target_channel r) channel
  unfolding redirect
  redirect-redirects r channel e = rw e refl

  -- `resolve_routing_channel` folds the redirects of the matching rules that redirect.
  pub route-foldl :
      (s : Subject) (channel : String) (rules : List RuleRecord)
      → route s channel rules
        ≡ foldl
            (λ c r. redirect r c)
            channel
            (select (λ r. redirects r.rule_type && matches_rule r s) rules)
  unfolding route
  route-foldl s channel [] = refl
  route-foldl s channel (r ∷ rs) = elim (Bool-cases (redirects r.rule_type)) [
    | inr e ↦ rw e (route-foldl s channel rs)
    | inl e ↦ elim (Bool-cases (matches_rule r s)) [
      | inl m ↦
          rw (e, m)
            (route-foldl s (or_channel (resolve_target_channel r) channel) rs
              ∙ ap
                  (λ c.
                    foldl (λ d q. redirect q d) c
                      (select (λ q. redirects q.rule_type && matches_rule q s) rs))
                  (sym (redirect-redirects r channel e)))
      | inr m ↦ rw (e, m) (route-foldl s channel rs)
    ]
  ]
