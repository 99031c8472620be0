-- ===== src/Store/Repositories/Phases.antt =====
-- The tables and queries of app/repositories/phases.py and app/repositories/orchestration_runs.py.
-- Both have UNIQUE columns, which the services look up before they insert.
use codex_collaboration_coor.Common.{
  String, Bool, true, ◌&&◌, Option, none, some, List, [], ◌∷◌, ◌==◌, one_of, select, find_first,
  if◌then◌else◌,
}
use codex_collaboration_coor.Common.Int.{lt_int, eq_int}
use codex_collaboration_coor.Exec.{Exec, gets}
use codex_collaboration_coor.Store.{World}
use codex_collaboration_coor.Store.Records.Phases.{PhaseRecord, OrchestrationRunRecord}
use codex_collaboration_coor.Store.Table.{Table}
use codex_collaboration_coor.Store.Table.Rows.{order_by, text_before}

abbrev pub phase_repository : Table PhaseRecord
phase_repository = record {
  name = "Phase";
  key = λ r. r.id;
  admits = λ r. true;
  rows = λ w. w.phases;
  with_rows = λ w rs. record w { phases = rs };
}

abbrev listed_gate : Option String → Bool
listed_gate none = true
listed_gate (some g) = one_of g ("review_required" ∷ "approval_required" ∷ "revise_on_reject" ∷ [])

abbrev pub orchestration_run_repository : Table OrchestrationRunRecord
orchestration_run_repository = record {
  name = "Orchestration run";
  key = λ r. r.id;
  admits = λ r. listed_gate r.gate_type;
  rows = λ w. w.orchestration_runs;
  with_rows = λ w rs. record w { orchestration_runs = rs };
}

-- `ORDER BY sort_order, created_at, id`
abbrev pub phase_before : PhaseRecord → PhaseRecord → Bool
phase_before x y =
    if lt_int x.sort_order y.sort_order
    then true
    else eq_int x.sort_order y.sort_order && text_before (λ r. r.created_at) (λ r. r.id) x y

abbrev pub phases_of : String → List PhaseRecord → List PhaseRecord
phases_of session_id rows = order_by phase_before (select (λ r. r.session_id == session_id) rows)

unfoldable pub list_phases_by_session : String → Exec World (List PhaseRecord)
list_phases_by_session session_id = gets (λ w. phases_of session_id w.phases)

abbrev pub has_phase_key : String → String → PhaseRecord → Bool
has_phase_key session_id phase_key r = r.session_id == session_id && r.phase_key == phase_key

unfoldable pub get_by_session_and_key : String → String → Exec World (Option PhaseRecord)
get_by_session_and_key session_id phase_key =
    gets (λ w. find_first (has_phase_key session_id phase_key) w.phases)

unfoldable pub get_run_by_session : String → Exec World (Option OrchestrationRunRecord)
get_run_by_session session_id =
    gets (λ w. find_first (λ r. r.session_id == session_id) w.orchestration_runs)
