-- ===== src/Policies/Matching.antt =====
-- The conditions and the actions of a policy of app/services/policy_engine_v2.py.
use codex_collaboration_coor.Common.{
  String, ◌<>◌, ◌==◌, ◌&&◌, ◌||◌, Bool, true, false, not, Option, none, some, List, [], ◌∷◌, one_of,
  is_none, if◌then◌else◌,
}
use codex_collaboration_coor.Common.Text.{lower, strip, contains}
use codex_collaboration_coor.Common.Json.{
  Json, null, str, arr, obj, Items, nil, cons, Fields, end, field, get, as_str, or_null,
}
use codex_collaboration_coor.Store.Records.Policies.{PolicyRecord}
use codex_collaboration_coor.Store.Env.{Env}
use codex_collaboration_coor.Store.Repositories.Policies.{policy_decisions_listed}
use codex_collaboration_coor.Rules.Matching.{parse_json}

-- The `dict` that a gate is judged by: texts, some of them missing.
abbrev pub Context : Type 0
Context = List (String × Option String)

-- `context.get(key)`
abbrev pub lookup : Context → String → Option String
lookup [] key = none
lookup ((k, v) ∷ rest) key = let later = lookup rest key in if k == key then v else later

abbrev pub context_fields : Context → Fields
context_fields [] = end
context_fields ((k, v) ∷ rest) = field k (or_null v) (context_fields rest)

-- `actual == value`, for a text or `None`.
abbrev pub equals_json : Option String → Json → Bool
equals_json none null = true
equals_json (some a) (str b) = a == b
equals_json _ _ = false

-- `actual in values`
abbrev pub in_items : Option String → Items → Bool
in_items actual nil = false
in_items actual (cons v vs) = equals_json actual v || in_items actual vs

abbrev pub contains_text : Option Json → String → Bool
contains_text (some (str needle)) actual = contains (lower needle) (lower actual)
contains_text _ actual = false

-- The keys of an expectation in their order, down to "not", whose answer is given.
unfoldable pub matches_fields : Fields → Option String → Bool → Bool
matches_fields fs actual otherwise = elim (get fs "equals") [
  | some v ↦ equals_json actual v
  | none ↦ elim (get fs "any_of") [
    | some (arr vs) ↦ in_items actual vs
    | _ ↦ contains_or_not fs actual otherwise
  ]
]
  where
    contains_or_not : Fields → Option String → Bool → Bool
    contains_or_not fs none otherwise = otherwise
    contains_or_not fs (some a) otherwise =
        if is_none (get fs "contains") then otherwise else contains_text (get fs "contains") a

unfoldable mutual
  pub matches_expected : Json → Option String → Bool
  matches_expected (obj fs) actual = matches_fields fs actual (not_expected fs actual)
  matches_expected (arr vs) actual = in_items actual vs
  matches_expected v actual = equals_json actual v

  -- The answer of the key "not": without it, a text is no `dict`.
  pub not_expected : Fields → Option String → Bool
  not_expected end actual = false
  not_expected (field k v fs) actual =
      let rest = not_expected fs actual in
      let here = not (matches_expected v actual) in if k == "not" then here else rest

-- `for key, expected in conditions.items()`
unfoldable pub matches_conditions : Fields → Context → Bool
matches_conditions end context = true
matches_conditions (field key expected rest) context =
    matches_expected expected (lookup context key) && matches_conditions rest context

abbrev pub default_decision : String → String
default_decision policy_type =
    if policy_type == "conditional_auto_approve"
    then "auto_approve"
    else if policy_type == "escalation"
    then "escalate_review"
    else "allow"

abbrev pub listed_or_default : Option String → String → String
listed_or_default none policy_type = default_decision policy_type
listed_or_default (some decision) policy_type =
    if one_of decision policy_decisions_listed then decision else default_decision policy_type

abbrev default_reason : String → String → String
default_reason name decision =
    if decision == "auto_approve"
    then "Policy " <> name <> " auto-approved the gate"
    else if decision == "escalate_review"
    then "Policy " <> name <> " escalated the gate to review"
    else if decision == "paused"
    then "Policy " <> name <> " paused automation"
    else if decision == "resumed"
    then "Policy " <> name <> " resumed automation"
    else "Policy " <> name <> " allowed the gate"

abbrev own_or_default : Option String → String → String → String
own_or_default none name decision = default_reason name decision
own_or_default (some reason) name decision =
    if strip reason == "" then default_reason name decision else strip reason

module _ ⦃env : Env⦄ where
  unfoldable pub matches_policy : PolicyRecord → Context → Bool
  matches_policy policy context = matches_conditions (parse_json policy.conditions_json) context

  unfoldable pub resolve_decision : PolicyRecord → String
  resolve_decision policy =
      listed_or_default (as_str (get (parse_json policy.actions_json) "decision"))
        policy.policy_type

  unfoldable pub resolve_reason : PolicyRecord → String → String
  resolve_reason policy decision =
      own_or_default (as_str (get (parse_json policy.actions_json) "reason")) policy.name decision
