-- ===== src/Runtimes.antt =====
-- app/services/runtime_service.py
pub mod Laws
use codex_collaboration_coor.Common.{
  String, Bool, Option, none, some, List, [], ◌∷◌, ◌==◌, ◌<>◌, select, if◌then◌else◌,
}
use codex_collaboration_coor.Exec.{Exec, pure, some_or_raise, lookup_error, ◌>>=◌}
use codex_collaboration_coor.Store.{World}
use codex_collaboration_coor.Store.Statuses.{RuntimeStatus, online, offline, busy}
use codex_collaboration_coor.Store.Records.{AgentRuntimeRecord}
use codex_collaboration_coor.Store.Env.{Env, utc_now}
use codex_collaboration_coor.Store.Table.{get, update}
use codex_collaboration_coor.Store.Table.Rows.{text_before}
use codex_collaboration_coor.Store.Repositories.{runtime_repository, list_runtimes}

-- `a.created_at, a.id` before `b.created_at, b.id`.
abbrev pub older : AgentRuntimeRecord → AgentRuntimeRecord → Bool
older = text_before (λ r. r.created_at) (λ r. r.id)

-- `max(rows, key=...)` keeps the first of the greatest rows.
unfoldable pub latest_from : AgentRuntimeRecord → List AgentRuntimeRecord → AgentRuntimeRecord
latest_from best [] = best
latest_from best (r ∷ rs) = latest_from (if older best r then r else best) rs

unfoldable pub latest : List AgentRuntimeRecord → Option AgentRuntimeRecord
latest [] = none
latest (r ∷ rs) = some (latest_from r rs)

unfoldable pub get_latest_runtime_for_agent : String → Exec World (Option AgentRuntimeRecord)
get_latest_runtime_for_agent agent_id = do
  runtimes ← list_runtimes
  pure (latest (select (λ r. r.agent_id == agent_id) runtimes))

abbrev or_previous : Option String → Option String → Option String
or_previous none previous = previous
or_previous (some t) previous = some t

module _ ⦃env : Env⦄ where
  -- A status is one of RUNTIME_STATUSES by its type.
  unfoldable pub set_runtime_status :
      String → RuntimeStatus → Option String → Exec World AgentRuntimeRecord
  set_runtime_status runtime_id runtime_status heartbeat_at = do
    found ← get runtime_repository runtime_id
    runtime ← some_or_raise (lookup_error ("Runtime not found: " <> runtime_id)) found
    now ← utc_now
    update runtime_repository (record runtime {
      runtime_status = runtime_status;
      last_heartbeat_at = or_previous heartbeat_at runtime.last_heartbeat_at;
      updated_at = now;
    })

  -- `heartbeat_at or _utc_now()`
  abbrev heartbeat_or_now : Option String → Exec World String
  heartbeat_or_now none = utc_now
  heartbeat_or_now (some t) = if t == "" then utc_now else pure t

  unfoldable pub set_online : String → Option String → Exec World AgentRuntimeRecord
  set_online runtime_id heartbeat_at = do
    at ← heartbeat_or_now heartbeat_at
    set_runtime_status runtime_id online (some at)

  unfoldable pub set_busy : String → Option String → Exec World AgentRuntimeRecord
  set_busy runtime_id heartbeat_at = do
    at ← heartbeat_or_now heartbeat_at
    set_runtime_status runtime_id busy (some at)

  unfoldable pub set_offline : String → Option String → Exec World AgentRuntimeRecord
  set_offline runtime_id heartbeat_at = set_runtime_status runtime_id offline heartbeat_at
