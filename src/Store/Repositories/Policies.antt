-- ===== src/Store/Repositories/Policies.antt =====
-- The tables and queries of app/repositories/policies.py.
use codex_collaboration_coor.Common.{
  String, Bool, true, false, ◌&&◌, ◌||◌, Option, none, some, List, [], ◌∷◌, one_of, is_text, not,
  select, if◌then◌else◌,
}
use codex_collaboration_coor.Common.Int.{lt_int, eq_int}
use codex_collaboration_coor.Exec.{Exec, gets}
use codex_collaboration_coor.Store.{World}
use codex_collaboration_coor.Store.Records.Policies.{PolicyRecord, PolicyDecisionRecord}
use codex_collaboration_coor.Store.Table.{Table}
use codex_collaboration_coor.Store.Table.Rows.{order_by, text_before}

-- _ALLOWED_POLICY_TYPES, which the CHECK lists, too.
abbrev pub policy_types : List String
policy_types = "conditional_auto_approve" ∷ "escalation" ∷ "template_scoped" ∷ "phase_scoped" ∷ []

abbrev pub policy_decisions_listed : List String
policy_decisions_listed =
    "allow" ∷ "auto_approve" ∷ "escalate_review" ∷ "paused" ∷ "resumed" ∷ "deferred" ∷ []

abbrev pub policy_repository : Table PolicyRecord
policy_repository = record {
  name = "Policy";
  key = λ r. r.id;
  admits = λ r. one_of r.policy_type policy_types;
  rows = λ w. w.policies;
  with_rows = λ w rs. record w { policies = rs };
}

abbrev pub policy_decision_repository : Table PolicyDecisionRecord
policy_decision_repository = record {
  name = "Policy decision";
  key = λ r. r.id;
  admits = λ r.
      one_of r.subject_type ("approval_gate" ∷ "review_gate" ∷ "policy_control" ∷ [])
      && one_of r.gate_type ("approval_required" ∷ "review_required" ∷ "automation_control" ∷ [])
      && one_of r.decision policy_decisions_listed;
  rows = λ w. w.policy_decisions;
  with_rows = λ w rs. record w { policy_decisions = rs };
}

-- `ORDER BY priority, created_at, id`
abbrev pub policy_before : PolicyRecord → PolicyRecord → Bool
policy_before x y =
    if lt_int x.priority y.priority
    then true
    else eq_int x.priority y.priority && text_before (λ r. r.created_at) (λ r. r.id) x y

-- `column = ?`, where a missing argument makes no clause and NULL equals nothing.
abbrev matches_column : Option String → Option String → Bool
matches_column none column = false
matches_column (some wanted) column = is_text column wanted

abbrev in_scope : Option String → Option String → Option String → PolicyRecord → Bool
in_scope none none none r = true
in_scope session_id template_key phase_key r =
    matches_column session_id r.session_id
    || matches_column template_key r.template_key
    || matches_column phase_key r.phase_key

abbrev pub policies_in :
    Option String → Option String → Option String → Bool → List PolicyRecord → List PolicyRecord
policies_in session_id template_key phase_key active_only rows = order_by policy_before (
    select
      (λ r.
        (if active_only then r.is_active && not r.automation_paused else true)
        && in_scope session_id template_key phase_key r)
      rows)

unfoldable pub list_policies :
    Option String → Option String → Option String → Bool → Exec World (List PolicyRecord)
list_policies session_id template_key phase_key active_only =
    gets (λ w. policies_in session_id template_key phase_key active_only w.policies)
