-- ===== src/Threads/Others.antt =====
-- What app/services/thread_mapping.py leaves of the other sessions and agents.
use codex_collaboration_coor.Common.{
  String, ◌==◌, ◌&&◌, true, false, Option, none, some, ◌≡◌, refl, ◌∙◌, eq_iff, eq_refl, arith,
}
use codex_collaboration_coor.Common.Json.{Json}
use codex_collaboration_coor.Exec.{◌>>=◌}
use codex_collaboration_coor.Exec.Keeps.{Keeps, keeps_rules}
use codex_collaboration_coor.Store.{World}
use codex_collaboration_coor.Store.Records.{ThreadMappingRecord}
use codex_collaboration_coor.Store.Env.{Env, utc_now, new_id, call_bridge}
use codex_collaboration_coor.Store.Keeps.{Keeps-list_runtimes}
use codex_collaboration_coor.Runtimes.{get_latest_runtime_for_agent}
use codex_collaboration_coor.Threads.{
  has_key, find_thread, get_thread, upsert, start_thread, resume_thread, reuse_or_start,
  get_or_create_thread,
}
use codex_collaboration_coor.Threads.Laws.{find_thread-put_thread, find_thread-has_key}

module _ ⦃env : Env⦄ (s a t b : String) (o : Option ThreadMappingRecord) where
  -- What the other session and agent are mapped to.
  abbrev Stays : World → Type 0
  Stays w = find_thread t b w.threads ≡ o

  abbrev IsOther : Type 0
  IsOther = (s == t && a == b) ≡ false

  has_key-other : (r : ThreadMappingRecord) → IsOther → has_key s a r ≡ true → has_key t b r ≡ false
  has_key-other r other keyed = ground (
    arith,
    eq_iff r.session_id s,
    eq_iff r.agent_id a,
    eq_iff r.session_id t,
    eq_iff r.agent_id b,
    eq_iff s t,
    eq_iff a b,
  )

  Keeps-upsert : (r : ThreadMappingRecord) → IsOther → has_key s a r ≡ true → Keeps Stays (upsert r)
  unfolding upsert
  Keeps-upsert r other keyed = record {
    at = λ w h. find_thread-put_thread t b r w.threads ∙ rw (has_key-other r other keyed) h;
  }

  Keeps-utc_now : Keeps Stays utc_now
  unfolding utc_now
  Keeps-utc_now = record { at = λ w h. h }

  Keeps-new_id : (prefix : String) → Keeps Stays (new_id prefix)
  unfolding new_id
  Keeps-new_id prefix = record { at = λ w h. h }

  Keeps-call_bridge : (method : String) (params : Json) → Keeps Stays (call_bridge method params)
  unfolding call_bridge
  Keeps-call_bridge method params = record { at = λ w h. h }

  Keeps-latest : (agent_id : String) → Keeps Stays (get_latest_runtime_for_agent agent_id)
  unfolding get_latest_runtime_for_agent
  Keeps-latest agent_id = search (keeps_rules, Keeps-list_runtimes)

  own_key : (s == s && a == a) ≡ true
  own_key = rw (eq_refl s, eq_refl a) refl

  Keeps-start_thread : IsOther → Keeps Stays (start_thread s a)
  unfolding start_thread
  Keeps-start_thread other =
      search
        (
          keeps_rules, Keeps-latest, Keeps-call_bridge, Keeps-utc_now, Keeps-new_id, Keeps-upsert,
          other, own_key,
        )
        depth 14

  Keeps-resume_thread :
      (m : ThreadMappingRecord) → IsOther → has_key s a m ≡ true → Keeps Stays (resume_thread s a m)
  unfolding resume_thread
  Keeps-resume_thread m other keyed =
      search (keeps_rules, Keeps-call_bridge, Keeps-utc_now, Keeps-upsert, other, keyed) depth 14

  Keeps-reuse_or_start :
      (found : Option ThreadMappingRecord)
      → IsOther
      → ((m : ThreadMappingRecord) → found ≡ some m → has_key s a m ≡ true)
      → Keeps Stays (reuse_or_start s a found)
  unfolding reuse_or_start
  Keeps-reuse_or_start none other keyed = Keeps-start_thread other
  Keeps-reuse_or_start (some m) other keyed =
      let own = keyed m refl in
      search (keeps_rules, Keeps-start_thread, Keeps-resume_thread, other, own) depth 8

-- A call for an agent in a session leaves what every other agent is mapped to, and the agent in every
-- other session, whether it returns or raises.
pub get_or_create_thread-others :
    ⦃env : Env⦄ (s a t b : String) (w : World)
    → (s == t && a == b) ≡ false
    → find_thread t b (get_or_create_thread s a w).1.threads ≡ find_thread t b w.threads
unfolding get_or_create_thread get_thread ◌>>=◌
get_or_create_thread-others s a t b w other =
    (Keeps-reuse_or_start s a t b (find_thread t b w.threads) (find_thread s a w.threads) other
        (λ m e. find_thread-has_key s a w.threads {r = m} e)).at
      w refl
