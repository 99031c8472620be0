-- ===== src/Tests/Threads.antt =====
-- A store with two mappings.
use codex_collaboration_coor.Common.{List, true, none, [], ◌∷◌, ◌≡◌, refl}
use codex_collaboration_coor.Store.{World, empty_world}
use codex_collaboration_coor.Store.Records.{ThreadMappingRecord}
use codex_collaboration_coor.Threads.Refinement.{
  StoreCall, get, list_by_session, deactivate, put, clear, seen, view, store_run, map_run,
  store_run-refines,
}
use codex_collaboration_coor.Threads.{find_thread, get_or_create_thread}
use codex_collaboration_coor.Threads.Others.{get_or_create_thread-others}
use codex_collaboration_coor.Store.Statuses.{queued}
use codex_collaboration_coor.Samples.{sample_env, world_with}

abbrev sample_thread : ThreadMappingRecord
sample_thread = record {
  id = "thm_1";
  session_id = "ses_1";
  agent_id = "agt_1";
  runtime_id = none;
  codex_thread_id = "thread_1";
  is_active = true;
  created_at = "then";
  updated_at = "then";
}

abbrev calls : List StoreCall
calls =
    put sample_thread
    ∷ put (record sample_thread { agent_id = "agt_2" })
    ∷ deactivate "ses_1" "agt_1"
    ∷ get "ses_1" "agt_1"
    ∷ list_by_session "ses_1"
    ∷ deactivate "ses_1" "agt_3"
    ∷ clear
    ∷ put sample_thread
    ∷ []

store_run-refines_example :
    seen ⦃env = sample_env⦄ (store_run ⦃env = sample_env⦄ calls empty_world)
    ≡ map_run ⦃env = sample_env⦄ calls (view empty_world)
store_run-refines_example = store_run-refines ⦃env = sample_env⦄ calls empty_world

-- The samples map no thread yet: the call starts one.
abbrev mapped_world : World
mapped_world = record (world_with queued) {
  threads = record sample_thread { session_id = "ses_2" } ∷ [];
}

get_or_create_thread-others_example :
    find_thread "ses_2" "agt_1"
      (get_or_create_thread ⦃env = sample_env⦄ "ses_1" "agt_1" mapped_world).1.threads
    ≡ find_thread "ses_2" "agt_1" mapped_world.threads
get_or_create_thread-others_example =
    get_or_create_thread-others ⦃env = sample_env⦄ "ses_1" "agt_1" "ses_2" "agt_1" mapped_world refl
