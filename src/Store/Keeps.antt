-- ===== src/Store/Keeps.antt =====
-- Invariants of the repository calls and of the calls to the outside.
use codex_collaboration_coor.Common.{
  String, List, [], ◌∷◌, ◌++◌, ◌+◌, false, Bool-cases, inl, inr, ◌≡◌,
}
use codex_collaboration_coor.Common.Json.{Json}
use codex_collaboration_coor.Exec.{gets}
use codex_collaboration_coor.Exec.Keeps.{Keeps}
use codex_collaboration_coor.Store.{World}
use codex_collaboration_coor.Store.Records.{ThreadMappingRecord}
use codex_collaboration_coor.Store.Env.{Env, utc_now, new_id, call_bridge}
use codex_collaboration_coor.Store.Table.{Table, create, get, update}
use codex_collaboration_coor.Store.Table.Rows.{has_row, replace_row}
use codex_collaboration_coor.Store.Repositories.{
  job_repository, job_event_repository, session_repository, session_event_repository,
  message_repository, artifact_repository, list_jobs, list_jobs_by_agent, list_runtimes,
  list_edges_by_session, list_active_rules,
}

-- `P` does not see the rows of a table.
pub record Unseen {R : Type 0} (P : World → Type 0) (t : Table R) : Type 0 where
  pub at : (w : World) (rs : List R) → P w → P (t.with_rows w rs)

module _ {P : World → Type 0} {R : Type 0} (t : Table R) where
  pub Keeps-create : Unseen P t → (r : R) → Keeps P (create t r)
  unfolding create
  Keeps-create unseen r = record {
    at = λ w h. elim (Bool-cases (t.admits r)) [
      | inl e ↦ rw e (unseen.at w (t.rows w ++ r ∷ []) h)
      | inr e ↦ rw e h
    ];
  }

  -- A row that fails a CHECK is not written.
  pub Keeps-create_refused : (r : R) → t.admits r ≡ false → Keeps P (create t r)
  unfolding create
  Keeps-create_refused r refused = record { at = λ w h. rw refused h }

  pub Keeps-get : (id : String) → Keeps P (get t id)
  unfolding get
  Keeps-get id = record { at = λ w h. h }

  pub Keeps-update : Unseen P t → (r : R) → Keeps P (update t r)
  unfolding update
  Keeps-update unseen r = record {
    at = λ w h. elim (Bool-cases (has_row t.key (t.key r) (t.rows w))) [
      | inl e ↦ rw e (elim (Bool-cases (t.admits r)) [
        | inl a ↦ rw a (unseen.at w (replace_row t.key r (t.rows w)) h)
        | inr a ↦ rw a h
      ])
      | inr e ↦ rw e h
    ];
  }

module _ {P : World → Type 0} where
  pub Keeps-list_jobs : Keeps P list_jobs
  unfolding list_jobs gets
  Keeps-list_jobs = record { at = λ w h. h }

  pub Keeps-list_jobs_by_agent : (a : String) → Keeps P (list_jobs_by_agent a)
  unfolding list_jobs_by_agent gets
  Keeps-list_jobs_by_agent a = record { at = λ w h. h }

  pub Keeps-list_runtimes : Keeps P list_runtimes
  unfolding list_runtimes gets
  Keeps-list_runtimes = record { at = λ w h. h }

  pub Keeps-list_edges : (s : String) → Keeps P (list_edges_by_session s)
  unfolding list_edges_by_session gets
  Keeps-list_edges s = record { at = λ w h. h }

  pub Keeps-list_active_rules : (s : String) → Keeps P (list_active_rules s)
  unfolding list_active_rules gets
  Keeps-list_active_rules s = record { at = λ w h. h }

-- `P` sees no write of a job, an event, a session, a message, an artifact or a thread, and no call to
-- the outside: all that a relay writes but approvals and its edge.
pub record Frame (P : World → Type 0) : Type 0 where
  pub jobs : Unseen P job_repository
  pub job_events : Unseen P job_event_repository
  pub sessions : Unseen P session_repository
  pub session_events : Unseen P session_event_repository
  pub messages : Unseen P message_repository
  pub artifacts : Unseen P artifact_repository
  pub threads : (w : World) (ts : List ThreadMappingRecord) → P w → P (record w { threads = ts })
  pub clock : (w : World) → P w → P (record w { clock_reads = w.clock_reads + 1 })
  pub ids : (w : World) → P w → P (record w { ids_drawn = w.ids_drawn + 1 })
  pub bridge : (w : World) → P w → P (record w { bridge_calls = w.bridge_calls + 1 })

module _ {P : World → Type 0} (f : Frame P) ⦃env : Env⦄ where
  pub Keeps-utc_now : Keeps P utc_now
  unfolding utc_now
  Keeps-utc_now = record { at = λ w h. f.clock w h }

  pub Keeps-new_id : (prefix : String) → Keeps P (new_id prefix)
  unfolding new_id
  Keeps-new_id prefix = record { at = λ w h. f.ids w h }

  pub Keeps-call_bridge : (method : String) (params : Json) → Keeps P (call_bridge method params)
  unfolding call_bridge
  Keeps-call_bridge method params = record { at = λ w h. f.bridge w h }
