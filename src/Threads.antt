-- ===== src/Threads.antt =====
-- app/services/thread_mapping.py: the in-memory map from a session and an agent to a Codex thread.
pub mod Laws
pub mod Refinement
pub mod Others
use codex_collaboration_coor.Common.{
  String, Bool, true, false, Option, none, some, List, [], ◌∷◌, ◌==◌, ◌&&◌, select, if◌then◌else◌,
}
use codex_collaboration_coor.Common.Json.{
  Json, Fields, str, obj, end, field, get as get_key, or_json, not_null, or_null,
}
use codex_collaboration_coor.Exec.{Exec, Outcome, ok, err, pure, lift, value_error, ◌>>=◌, ◌>>◌}
use codex_collaboration_coor.Store.{World}
use codex_collaboration_coor.Store.Records.{ThreadMappingRecord, AgentRuntimeRecord}
use codex_collaboration_coor.Store.Env.{
  Env, Reply, mapping, response, utc_now, new_id, call_bridge, text_of,
}
use codex_collaboration_coor.Runtimes.{get_latest_runtime_for_agent}

abbrev pub has_key : String → String → ThreadMappingRecord → Bool
has_key session_id agent_id r = r.session_id == session_id && r.agent_id == agent_id

-- `self._records.get((session_id, agent_id))`
unfoldable pub find_thread : String → String → List ThreadMappingRecord → Option ThreadMappingRecord
find_thread session_id agent_id [] = none
find_thread session_id agent_id (r ∷ rs) =
    if has_key session_id agent_id r then some r else find_thread session_id agent_id rs

-- `self._records[(record.session_id, record.agent_id)] = record`
unfoldable pub put_thread :
    ThreadMappingRecord → List ThreadMappingRecord → List ThreadMappingRecord
put_thread r [] = r ∷ []
put_thread r (x ∷ xs) = if has_key r.session_id r.agent_id x then r ∷ xs else x ∷ put_thread r xs

unfoldable pub get_thread : String → String → Exec World (Option ThreadMappingRecord)
get_thread session_id agent_id w = (ok (find_thread session_id agent_id w.threads), w)

unfoldable pub upsert : ThreadMappingRecord → Exec World ThreadMappingRecord
upsert r w = (ok r, record w { threads = put_thread r w.threads })

-- `[record for record in self._records.values() if record.session_id == session_id]`
unfoldable pub list_threads_by_session : String → Exec World (List ThreadMappingRecord)
list_threads_by_session session_id w = (ok (select (λ r. r.session_id == session_id) w.threads), w)

-- `self._records.clear()`
unfoldable pub clear_threads : Exec World (Unit {0})
clear_threads w = (ok tt, record w { threads = [] })

abbrev id_of : Option AgentRuntimeRecord → Option String
id_of none = none
id_of (some r) = some r.id

module _ ⦃env : Env⦄ where
  abbrev deactivated : Option ThreadMappingRecord → Exec World (Option ThreadMappingRecord)
  deactivated none = pure none
  deactivated (some r) = do
    now ← utc_now
    saved ← upsert (record r { is_active = false; updated_at = now })
    pure (some saved)

  unfoldable pub deactivate_thread : String → String → Exec World (Option ThreadMappingRecord)
  deactivate_thread session_id agent_id = do
    found ← get_thread session_id agent_id
    deactivated found

  -- The dictionary in which `_extract_thread_id` looks: `response["result"]` of a dict that has one,
  -- else the dict itself, or the attribute `result` of an object.
  abbrev thread_result : Reply → Json
  thread_result (mapping fs) = elim (get_key fs "result") [ none ↦ obj fs | some v ↦ v ]
  thread_result (response v) = v

  abbrev named_text : Option Json → Outcome String
  named_text none = err (value_error "Bridge response did not include a thread id")
  named_text (some v) = ok (text_of v)

  -- `thread.get("id") or thread.get("thread_id")`, if `thread` is a dict and that is not `None`.
  abbrev nested_id : Option Json → Option Json
  nested_id (some (obj thread)) =
      not_null (or_json (get_key thread "id") (get_key thread "thread_id"))
  nested_id _ = none

  abbrev flat_id : Fields → Option Json
  flat_id fs = not_null (
      or_json (or_json (get_key fs "thread_id") (get_key fs "threadId"))
        (get_key fs "codex_thread_id"))

  abbrev thread_id_of : Json → Option Json
  thread_id_of (obj fs) = elim (nested_id (get_key fs "thread")) [
    | none ↦ flat_id fs
    | some v ↦ some v
  ]
  thread_id_of _ = none

  unfoldable pub extract_thread_id : Reply → Outcome String
  extract_thread_id r = named_text (thread_id_of (thread_result r))

  -- `thread_start` and a new mapping.
  unfoldable pub start_thread : String → String → Exec World (ThreadMappingRecord × Bool)
  start_thread session_id agent_id = do
    runtime ← get_latest_runtime_for_agent agent_id
    reply ← call_bridge "thread_start" (
        obj (
          field "session_id" (str session_id)
            (field "agent_id" (str agent_id) (field "runtime_id" (or_null (id_of runtime)) end))))
    thread_id ← lift (extract_thread_id reply)
    now ← utc_now
    id ← new_id "ctm_"
    saved ← upsert (record {
      id = id;
      session_id = session_id;
      agent_id = agent_id;
      runtime_id = id_of runtime;
      codex_thread_id = thread_id;
      is_active = true;
      created_at = now;
      updated_at = now;
    })
    pure (saved, true)

  -- `thread_resume` of an active mapping.
  unfoldable pub resume_thread :
      String → String → ThreadMappingRecord → Exec World (ThreadMappingRecord × Bool)
  resume_thread session_id agent_id existing = do
    call_bridge "thread_resume" (
        obj (
          field "session_id" (str session_id) (
            field "agent_id" (str agent_id)
              (field "thread_id" (str existing.codex_thread_id) end))))
    now ← utc_now
    saved ← upsert (record existing { is_active = true; updated_at = now })
    pure (saved, false)

  unfoldable pub reuse_or_start :
      String → String → Option ThreadMappingRecord → Exec World (ThreadMappingRecord × Bool)
  reuse_or_start session_id agent_id none = start_thread session_id agent_id
  reuse_or_start session_id agent_id (some existing) =
      if existing.is_active
      then resume_thread session_id agent_id existing
      else start_thread session_id agent_id

  unfoldable pub get_or_create_thread : String → String → Exec World (ThreadMappingRecord × Bool)
  get_or_create_thread session_id agent_id = do
    existing ← get_thread session_id agent_id
    reuse_or_start session_id agent_id existing
