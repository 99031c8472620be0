-- ===== src/LoopGuard.antt =====
-- app/services/loop_guard.py
pub mod Laws
use codex_collaboration_coor.Common.{
  ℕ, ◌+◌, String, ◌<>◌, Bool, Option, none, some, List, ◌==◌, leb, select, length, if◌then◌else◌,
}
use codex_collaboration_coor.Common.Json.{str, end, field}
use codex_collaboration_coor.Exec.{Exec, pure, some_or_raise, lookup_error, ◌>>=◌, ◌>>◌}
use codex_collaboration_coor.Store.{World}
use codex_collaboration_coor.Store.Statuses.{paused_by_loop_guard, paused}
use codex_collaboration_coor.Store.Records.{JobRecord, SessionRecord, RelayEdgeRecord}
use codex_collaboration_coor.Store.Env.{Env, utc_now}
use codex_collaboration_coor.Store.Table.{get, update}
use codex_collaboration_coor.Store.Repositories.{
  job_repository, session_repository, list_edges_by_session,
}
use codex_collaboration_coor.Events.{record_session_event, record_job_event}

pub record LoopGuardDecision : Type 0 where
  pub should_pause : Bool
  pub reason : Option String
  pub prior_edges : ℕ

-- The decision from the edges of the job's session. `digits` prints a number.
unfoldable pub decide : (ℕ → String) → ℕ → JobRecord → List RelayEdgeRecord → LoopGuardDecision
decide digits max_relay_edges_per_agent job edges =
    let matching_edges = select (λ e. e.target_agent_id == job.assigned_agent_id) edges in
    let should_pause = leb max_relay_edges_per_agent (length matching_edges + 1) in
    record {
      should_pause = should_pause;
      reason =
          if should_pause
          then some (
              "Loop guard paused relay for agent "
              <> job.assigned_agent_id
              <> " after "
              <> digits (length matching_edges)
              <> " prior relays")
          else none;
      prior_edges = length matching_edges;
    }

module _ ⦃env : Env⦄ (digits : ℕ → String) (max_relay_edges_per_agent : ℕ) where
  unfoldable pub evaluate : JobRecord → Exec World LoopGuardDecision
  evaluate job = do
    edges ← list_edges_by_session job.session_id
    pure (decide digits max_relay_edges_per_agent job edges)

module _ ⦃env : Env⦄ where
  unfoldable pub get_session : String → Exec World SessionRecord
  get_session session_id = do
    found ← get session_repository session_id
    some_or_raise (lookup_error ("Session not found: " <> session_id)) found

  unfoldable pub pause_job : JobRecord → String → Exec World JobRecord
  pause_job job reason = do
    now ← utc_now
    let updated_job = record job {
      status = paused_by_loop_guard;
      last_known_turn_status = some "paused_by_loop_guard";
      completed_at = some now;
      updated_at = now;
    }
    update job_repository updated_job
    record_job_event updated_job "job.paused_by_loop_guard"
        (field "agent_id" (str updated_job.assigned_agent_id) (field "reason" (str reason) end)) now
    session ← get_session job.session_id
    update session_repository (record session {
      loop_guard_status = paused;
      loop_guard_reason = some reason;
      updated_at = now;
    })
    record_session_event job.session_id "loop_guard_triggered" (some "system") none
        (field "job_id" (str job.id)
          (field "agent_id" (str job.assigned_agent_id) (field "reason" (str reason) end)))
        now
    pure updated_job
