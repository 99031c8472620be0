-- ===== src/Store/Repositories/Pools.antt =====
-- The tables and queries of app/repositories/runtime_pools.py. Both tables have UNIQUE columns, a
-- pool's key and a context's job and key, which the services look up before they insert.
use codex_collaboration_coor.Common.{
  String, Bool, true, false, ◌&&◌, Option, List, [], ◌∷◌, ◌==◌, ltb, one_of, find_first,
  if◌then◌else◌,
}
use codex_collaboration_coor.Common.Int.{lt_int, eq_int}
use codex_collaboration_coor.Exec.{Exec, gets}
use codex_collaboration_coor.Store.{World}
use codex_collaboration_coor.Store.Records.Pools.{RuntimePoolRecord, WorkContextRecord}
use codex_collaboration_coor.Store.Table.{Table}
use codex_collaboration_coor.Store.Table.Rows.{order_by, text_before}

-- VALID_ISOLATION_MODES and VALID_POOL_STATUSES, which the CHECKs list, too.
abbrev pub isolation_modes : List String
isolation_modes = "shared" ∷ "isolated" ∷ "ephemeral" ∷ []

abbrev pub pool_statuses : List String
pool_statuses = "ready" ∷ "degraded" ∷ "offline" ∷ []

abbrev pub runtime_pool_repository : Table RuntimePoolRecord
runtime_pool_repository = record {
  name = "Runtime pool";
  key = λ r. r.id;
  admits =
      λ r. one_of r.default_isolation_mode isolation_modes && one_of r.pool_status pool_statuses;
  rows = λ w. w.runtime_pools;
  with_rows = λ w rs. record w { runtime_pools = rs };
}

abbrev pub work_context_repository : Table WorkContextRecord
work_context_repository = record {
  name = "Work context";
  key = λ r. r.id;
  admits = λ r. one_of r.isolation_mode isolation_modes;
  rows = λ w. w.work_contexts;
  with_rows = λ w rs. record w { work_contexts = rs };
}

unfoldable pub get_by_key : String → Exec World (Option RuntimePoolRecord)
get_by_key pool_key = gets (λ w. find_first (λ r. r.pool_key == pool_key) w.runtime_pools)

-- `ORDER BY is_default DESC, sort_order, title, pool_key`
abbrev pub pool_before : RuntimePoolRecord → RuntimePoolRecord → Bool
pool_before x y =
    if ltb y.is_default x.is_default
    then true
    else if ltb x.is_default y.is_default
    then false
    else if lt_int x.sort_order y.sort_order
    then true
    else eq_int x.sort_order y.sort_order && text_before (λ r. r.title) (λ r. r.pool_key) x y

unfoldable pub list_runtime_pools : Exec World (List RuntimePoolRecord)
list_runtime_pools = gets (λ w. order_by pool_before w.runtime_pools)

abbrev context_before : WorkContextRecord → WorkContextRecord → Bool
context_before = text_before (λ r. r.created_at) (λ r. r.id)

unfoldable pub get_by_job : String → Exec World (Option WorkContextRecord)
get_by_job job_id = gets (λ w. find_first (λ r. r.job_id == job_id) w.work_contexts)

unfoldable pub list_contexts : Exec World (List WorkContextRecord)
list_contexts = gets (λ w. order_by context_before w.work_contexts)
