-- ===== src/Tests/Decisions.antt =====
-- Decisions on the sample approval.
use codex_collaboration_coor.Common.{◌<>◌, ◌≡◌, refl, none, some}
use codex_collaboration_coor.Exec.{err, conflict_error}
use codex_collaboration_coor.Store.{World}
use codex_collaboration_coor.Store.Statuses.{input_required, queued, accepted, declined}
use codex_collaboration_coor.Approvals.{ApprovalDecision, resolve}
use codex_collaboration_coor.Approvals.Laws.{Recorded, resolve-tables}
use codex_collaboration_coor.Store.Table.Rows.{find_row}
use codex_collaboration_coor.Coordinator.{execute, accept_approval, serve, start, next}
use codex_collaboration_coor.Coordinator.Decisions.{resolve-once, decided-Reaches}
use codex_collaboration_coor.Samples.{
  sample_env, sample_digits, world_with, job_with, sample_approval,
}
use codex_collaboration_coor.Tests.{result}

abbrev accepted_decision : ApprovalDecision
accepted_decision = record {
  approval = record sample_approval {
    status = accepted;
    resolved_at = some "now";
    updated_at = "now";
  };
  job = record (job_with queued) {
    last_known_turn_status = some "accepted";
    started_at = some "now";
    updated_at = "now";
  };
}

abbrev after_accept : World
after_accept = (resolve ⦃env = sample_env⦄ "apr_1" accepted none (world_with input_required)).1

resolve-once_example :
    resolve ⦃env = sample_env⦄ "apr_1" declined none
      (serve ⦃env = sample_env⦄ sample_digits 3 (execute "job_1" "manual_relay") after_accept).1
    ≡ (
      err (conflict_error ("Approval request already resolved: " <> "apr_1")),
      (serve ⦃env = sample_env⦄ sample_digits 3 (execute "job_1" "manual_relay") after_accept).1,
    )
unfolding result
resolve-once_example =
    resolve-once ⦃env = sample_env⦄ sample_digits 3 "apr_1" accepted declined none none
      (world_with input_required) _ accepted_decision refl refl
      (next _ start (execute "job_1" "manual_relay"))

decided-Reaches_example :
    find_row
      (λ r. r.id)
      "apr_1"
      (serve ⦃env = sample_env⦄ sample_digits 3
        (accept_approval "apr_1" none)
        after_accept).1.approvals
    ≡ some accepted_decision.approval
unfolding result
decided-Reaches_example =
    decided-Reaches ⦃env = sample_env⦄ sample_digits 3 "apr_1" accepted_decision.approval
      after_accept _ refl refl (next _ start (accept_approval "apr_1" none))

resolve-tables_example : Recorded "apr_1" accepted accepted_decision after_accept
unfolding result
resolve-tables_example =
    resolve-tables ⦃env = sample_env⦄ "apr_1" accepted none (world_with input_required)
      accepted_decision refl refl
