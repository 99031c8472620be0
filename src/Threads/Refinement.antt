-- ===== src/Threads/Refinement.antt =====
-- The store of app/services/thread_mapping.py against the map that it stands for.
use codex_collaboration_coor.Common.{
  ℕ, ◌+◌, String, ◌==◌, ◌&&◌, true, false, inl, inr, Option, none, some, List, [], ◌∷◌, ◌≡◌, refl,
  ◌∙◌, ap, fun_ext, select, eq_iff, eq_refl, arith, Option-cases, if◌then◌else◌,
}
use codex_collaboration_coor.Exec.{Outcome, ok, ◌>>=◌}
use codex_collaboration_coor.Store.{World}
use codex_collaboration_coor.Store.Records.{ThreadMappingRecord}
use codex_collaboration_coor.Store.Env.{Env, utc_now}
use codex_collaboration_coor.Threads.{
  has_key, find_thread, get_thread, upsert, deactivate_thread, clear_threads,
  list_threads_by_session,
}
use codex_collaboration_coor.Threads.Laws.{find_thread-put_thread, find_thread-has_key}

-- What a session and an agent are mapped to.
abbrev pub ThreadMap : Type 0
ThreadMap = String → String → Option ThreadMappingRecord

-- The methods of the store.
pub data StoreCall : Type 0 where
  get : String → String → StoreCall
  list_by_session : String → StoreCall
  deactivate : String → String → StoreCall
  put : ThreadMappingRecord → StoreCall
  clear : StoreCall

-- What a method answers: a mapping or nothing, or a list, which stands for a map, too.
pub data Answer : Type 0 where
  one : Option ThreadMappingRecord → Answer
  many : ThreadMap → Answer

-- `m` with `r` in place of what the session and the agent were mapped to.
abbrev set_at : String → String → ThreadMappingRecord → ThreadMap → ThreadMap
set_at session_id agent_id r m = λ s a. if session_id == s && agent_id == a then some r else m s a

abbrev empty_map : ThreadMap
empty_map = λ s a. none

-- The map that a list of mappings stands for.
abbrev map_of : List ThreadMappingRecord → ThreadMap
map_of rs = λ s a. find_thread s a rs

-- The map, and how often the clock was asked.
abbrev pub MapState : Type 0
MapState = ThreadMap × ℕ

abbrev pub view : World → MapState
view w = (map_of w.threads, w.clock_reads)

abbrev answer_one : Outcome (Option ThreadMappingRecord) → Answer
answer_one (ok o) = one o
answer_one _ = one none

abbrev answer_many : Outcome (List ThreadMappingRecord) → Answer
answer_many (ok rs) = many (map_of rs)
answer_many _ = one none

abbrev answer_put : Outcome ThreadMappingRecord → Answer
answer_put (ok r) = one (some r)
answer_put _ = one none

module _ ⦃env : Env⦄ where
  -- The specification: a mapping that is there is deactivated in its place, at the next time of the
  -- clock; a listing has the mappings of its session.
  abbrev deactivate_at : String → String → Option ThreadMappingRecord → MapState → Answer × MapState
  deactivate_at s a none (m, clock) = (one none, (m, clock))
  deactivate_at s a (some r) (m, clock) =
      let updated = record r { is_active = false; updated_at = env.now clock } in
      (one (some updated), (set_at s a updated m, clock + 1))

  abbrev pub map_step : StoreCall → MapState → Answer × MapState
  map_step (get s a) (m, clock) = (one (m s a), (m, clock))
  map_step (list_by_session s) (m, clock) =
      (many (λ t a. if t == s then m t a else none), (m, clock))
  map_step (deactivate s a) (m, clock) = deactivate_at s a (m s a) (m, clock)
  map_step (put r) (m, clock) = (one (some r), (set_at r.session_id r.agent_id r m, clock))
  map_step clear (m, clock) = (one none, (empty_map, clock))

  abbrev pub store_step : StoreCall → World → Answer × World
  store_step (get s a) w = let (o, v) = get_thread s a w in (answer_one o, v)
  store_step (list_by_session s) w = let (o, v) = list_threads_by_session s w in (answer_many o, v)
  store_step (deactivate s a) w = let (o, v) = deactivate_thread s a w in (answer_one o, v)
  store_step (put r) w = let (o, v) = upsert r w in (answer_put o, v)
  store_step clear w = let (o, v) = clear_threads w in (one none, v)

  -- The answers of a sequence of calls, and the state after them.
  unfoldable pub map_run : List StoreCall → MapState → List Answer × MapState
  map_run [] m = ([], m)
  map_run (c ∷ cs) m =
      let (answer, next) = map_step c m in
      let (answers, last) = map_run cs next in (answer ∷ answers, last)

  unfoldable pub store_run : List StoreCall → World → List Answer × World
  store_run [] w = ([], w)
  store_run (c ∷ cs) w =
      let (answer, next) = store_step c w in
      let (answers, last) = store_run cs next in (answer ∷ answers, last)

  abbrev pub seen : {A : Type 0} → A × World → A × MapState
  seen r = (r.0, view r.1)

  map_of-put :
      (r : ThreadMappingRecord) (s a : String) (w : World)
      → has_key s a r ≡ true
      → map_of (upsert r w).1.threads ≡ set_at s a r (map_of w.threads)
  unfolding upsert
  map_of-put r s a w keyed = fun_ext (λ t. fun_ext (λ b.
      find_thread-put_thread t b r w.threads
      ∙ ap (λ x. if x then some r else find_thread t b w.threads) (has_key-same t b)))
    where
      has_key-same : (t b : String) → has_key t b r ≡ (s == t && a == b)
      has_key-same t b = ground (
        arith,
        eq_iff r.session_id s,
        eq_iff r.agent_id a,
        eq_iff r.session_id t,
        eq_iff r.agent_id b,
        eq_iff s t,
        eq_iff a b,
      )

  find_thread-select :
      (s t a : String) (rs : List ThreadMappingRecord)
      → find_thread t a (select (λ r. r.session_id == s) rs)
        ≡ (if t == s then find_thread t a rs else none)
  unfolding find_thread
  find_thread-select s t a [] = ground arith
  find_thread-select s t a (r ∷ rs) =
      ground (
        arith,
        eq_iff r.session_id s,
        eq_iff r.session_id t,
        eq_iff t s,
        find_thread-select s t a rs,
      )

  -- A deactivation, by what the store finds.
  deactivate-refines :
      (s a : String) (w : World)
      → seen (store_step (deactivate s a) w) ≡ map_step (deactivate s a) (view w)
  unfolding deactivate_thread get_thread upsert utc_now ◌>>=◌
  deactivate-refines s a w = elim (Option-cases (find_thread s a w.threads)) [
    | inl e ↦ rw e refl
    | inr (r, e) ↦
        let updated = record r { is_active = false; updated_at = env.now w.clock_reads } in
        rw e (
          ap (λ m. (one (some updated), (m, w.clock_reads + 1)))
            (map_of-put updated s a w (find_thread-has_key s a w.threads {r = r} e)))
  ]

  store_step-refines : (c : StoreCall) (w : World) → seen (store_step c w) ≡ map_step c (view w)
  unfolding get_thread list_threads_by_session clear_threads upsert find_thread
  store_step-refines (get s a) w = refl
  store_step-refines (list_by_session s) w =
      ap (λ m. (many m, view w)) (fun_ext (λ t. fun_ext (λ a. find_thread-select s t a w.threads)))
  store_step-refines (deactivate s a) w = deactivate-refines s a w
  store_step-refines (put r) w =
      ap (λ m. (one (some r), (m, w.clock_reads)))
        (map_of-put r r.session_id r.agent_id w
          (rw (eq_refl r.session_id, eq_refl r.agent_id) refl))
  store_step-refines clear w = refl

-- Any sequence of calls of the methods of the store gives the answers of the specification, and leaves
-- the map and the reads of the clock that the specification leaves. A listing is compared as the map
-- that it stands for: the order of the mappings is left open.
pub store_run-refines :
    ⦃env : Env⦄ (cs : List StoreCall) (w : World) → seen (store_run cs w) ≡ map_run cs (view w)
unfolding store_run map_run
store_run-refines [] w = refl
store_run-refines (c ∷ cs) w =
    ap (λ (q : List Answer × MapState). ((store_step c w).0 ∷ q.0, q.1))
      (store_run-refines cs (store_step c w).1)
    ∙ ap (λ (q : Answer × MapState). (q.0 ∷ (map_run cs q.1).0, (map_run cs q.1).1))
        (store_step-refines c w)
