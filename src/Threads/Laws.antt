-- ===== src/Threads/Laws.antt =====
-- The mappings of app/services/thread_mapping.py after one call and after a second one.
use codex_collaboration_coor.Common.{
  String, eq_iff, eq_refl, Bool, true, false, Bool-cases, inl, inr, Option, none, some, List, [],
  ◌∷◌, ◌≡◌, refl, ◌∙◌, subst, if◌then◌else◌, arith,
}
use codex_collaboration_coor.Exec.{ok, ◌>>=◌, pure}
use codex_collaboration_coor.Exec.Ensures.{Ensures, Ensures-any, Ensures-bind, Ensures-if}
use codex_collaboration_coor.Store.{World}
use codex_collaboration_coor.Store.Records.{ThreadMappingRecord}
use codex_collaboration_coor.Store.Env.{Env}
use codex_collaboration_coor.Threads.{
  has_key, find_thread, put_thread, get_thread, upsert, start_thread, resume_thread, reuse_or_start,
  get_or_create_thread,
}

-- The mapping of a key after a mapping is written: that one under its own key, and what was there
-- under every other.
pub find_thread-put_thread :
    (s a : String) (r : ThreadMappingRecord) (rs : List ThreadMappingRecord)
    → find_thread s a (put_thread r rs) ≡ (if has_key s a r then some r else find_thread s a rs)
unfolding find_thread put_thread
find_thread-put_thread s a r [] = refl
find_thread-put_thread s a r (x ∷ xs) = ground (
  arith,
  eq_iff x.session_id r.session_id,
  eq_iff x.agent_id r.agent_id,
  eq_iff x.session_id s,
  eq_iff x.agent_id a,
  eq_iff r.session_id s,
  eq_iff r.agent_id a,
  find_thread-put_thread s a r xs,
)

pub find_thread-has_key :
    (s a : String) (rs : List ThreadMappingRecord) {r : ThreadMappingRecord}
    → find_thread s a rs ≡ some r
    → has_key s a r ≡ true
unfolding find_thread
find_thread-has_key s a [] h = absurd (cc)
find_thread-has_key s a (x ∷ xs) {r} h = elim (Bool-cases (has_key s a x)) [
  | inl e ↦ let is_r : x ≡ r = cc (e, h) in subst (λ y. has_key s a y ≡ true) is_r e
  | inr e ↦ find_thread-has_key s a xs (rw e at h)
]

-- An active mapping of the agent in the session.
abbrev pub Mapped : String → String → ThreadMappingRecord → World → Type 0
Mapped s a m w = (find_thread s a w.threads ≡ some m) × (m.is_active ≡ true)

-- What a call leaves: the active mapping that it returns, with a thread and whether it is new.
abbrev Leaves : String → String → String → Bool → ThreadMappingRecord × Bool → World → Type 0
Leaves s a thread fresh m w = Mapped s a m.0 w × (m.0.codex_thread_id ≡ thread) × (m.1 ≡ fresh)

module _ ⦃env : Env⦄ (s a : String) where
  upsert-Mapped :
      {P : World → Type 0} (r : ThreadMappingRecord) (fresh : Bool)
      → has_key s a r ≡ true
      → r.is_active ≡ true
      → Ensures P (Leaves s a r.codex_thread_id fresh) (upsert r >>= λ saved. pure (saved, fresh))
  unfolding upsert ◌>>=◌
  upsert-Mapped r fresh keyed active = record {
    at = λ w h m e.
        let is_m : (r, fresh) ≡ m = cc e in
        subst
          (λ y.
            Leaves s a r.codex_thread_id fresh y (record w { threads = put_thread r w.threads }))
          is_m ((find_thread-put_thread s a r w.threads ∙ rw keyed refl, active), refl, refl);
  }

  resume_thread-Mapped :
      {P : World → Type 0} (m : ThreadMappingRecord)
      → has_key s a m ≡ true
      → Ensures P (Leaves s a m.codex_thread_id false) (resume_thread s a m)
  unfolding resume_thread
  resume_thread-Mapped m keyed =
      Ensures-bind _ _ _ (Ensures-any _)
        (λ reply. Ensures-bind _ _ _ (Ensures-any _) (λ now. upsert-Mapped _ false keyed refl))

  -- A started thread is a new one.
  abbrev Holds : ThreadMappingRecord × Bool → World → Type 0
  Holds m w = Mapped s a m.0 w

  start_thread-Mapped : {P : World → Type 0} → Ensures P Holds (start_thread s a)
  unfolding start_thread
  start_thread-Mapped = Ensures-bind _ _ _ (Ensures-any _) (λ runtime.
      Ensures-bind _ _ _ (Ensures-any _) (λ reply. Ensures-bind _ _ _ (Ensures-any _) (λ thread.
        Ensures-bind _ _ _ (Ensures-any _) (λ now. Ensures-bind _ _ _ (Ensures-any _) (λ id.
          record {
            at = λ w h m e.
                ((upsert-Mapped {P = λ _. Unit {0}} _ true (rw (eq_refl s, eq_refl a) refl) refl).at
                  w tt m e).0;
          })))))

  reuse_or_start-Mapped :
      {P : World → Type 0} (o : Option ThreadMappingRecord)
      → ((m : ThreadMappingRecord) → o ≡ some m → has_key s a m ≡ true)
      → Ensures P Holds (reuse_or_start s a o)
  unfolding reuse_or_start
  reuse_or_start-Mapped none keyed = start_thread-Mapped
  reuse_or_start-Mapped (some m) keyed =
      Ensures-if m.is_active _ _
        (λ active. record {
          at = λ w h r e.
              ((resume_thread-Mapped {P = λ _. Unit {0}} m (keyed m refl)).at w tt r e).0;
        })
        (λ inactive. start_thread-Mapped)

  get_or_create_thread-Mapped : Ensures (λ _. Unit {0}) Holds (get_or_create_thread s a)
  unfolding get_or_create_thread get_thread ◌>>=◌
  get_or_create_thread-Mapped = record {
    at = λ w h m e.
        (reuse_or_start-Mapped {P = λ _. Unit {0}} (find_thread s a w.threads)
            (λ r found. find_thread-has_key s a w.threads found)).at
          w tt m e;
  }

  get_or_create_thread-again :
      (m : ThreadMappingRecord)
      → Ensures (Mapped s a m) (Leaves s a m.codex_thread_id false) (get_or_create_thread s a)
  unfolding get_or_create_thread get_thread reuse_or_start resume_thread ◌>>=◌
  get_or_create_thread-again m = record {
    at = λ w h.
        rw (h.0, h.1)
          (λ r e.
            (resume_thread-Mapped {P = λ _. Unit {0}} m (find_thread-has_key s a w.threads h.0)).at
              w tt r e);
  }

-- Once a call has returned a thread, the next call that returns gives the same thread, and not as a
-- new one.
pub get_or_create_thread-twice :
    ⦃env : Env⦄ (s a : String) (w : World) (m n : ThreadMappingRecord) (fresh again : Bool)
    → (get_or_create_thread s a w).0 ≡ ok (m, fresh)
    → (get_or_create_thread s a (get_or_create_thread s a w).1).0 ≡ ok (n, again)
    → (n.codex_thread_id ≡ m.codex_thread_id) × (again ≡ false)
get_or_create_thread-twice s a w m n fresh again first second =
    let (mapped, same, old) =
      (get_or_create_thread-again s a m).at _
        ((get_or_create_thread-Mapped s a).at w tt (m, fresh) first) (n, again) second in
    (same, old)
