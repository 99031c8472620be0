-- ===== src/Phases/Active.antt =====
-- The active phase of a session of app/services/phase_service.py.
use codex_collaboration_coor.Common.{
  String, ◌==◌, true, Option, none, some, List, ◌≡◌, refl, arith, Bool-cases, find_first, inl, inr,
  eq_iff,
}
use codex_collaboration_coor.Common.Members.{find_first-any_of, find_first-Memᴰ}
use codex_collaboration_coor.LoopGuard.{get_session}
use codex_collaboration_coor.Exec.{Exec, ok, ◌>>=◌, pure, gets, some_or_raise}
use codex_collaboration_coor.Store.{World}
use codex_collaboration_coor.Store.Records.{SessionRecord}
use codex_collaboration_coor.Store.Records.Phases.{PhaseRecord}
use codex_collaboration_coor.Store.Env.{Env}
use codex_collaboration_coor.Store.Table.{get}
use codex_collaboration_coor.Store.Table.Rows.{find_row}
use codex_collaboration_coor.Store.Repositories.Phases.{has_phase_key, get_by_session_and_key}
use codex_collaboration_coor.Phases.Laws.{all_seeded, ensure_default_phases-Ensured}
use codex_collaboration_coor.Phases.{
  presets, get_active_phase, ensure_default_phases, default_phase, active_or_default, phase_with_id,
}

module _ ⦃env : Env⦄ (s : String) where
  planning-some :
      (rows : List PhaseRecord)
      → all_seeded s presets rows ≡ true
      → (p : PhaseRecord) × (find_first (has_phase_key s "planning") rows ≡ some p)
  planning-some rows h = find_first-any_of (has_phase_key s "planning") rows (ground (arith, h))

  abbrev Finds : World → Exec World (Option PhaseRecord) → Type 0
  Finds w act = (p : PhaseRecord) × ((act w).0 ≡ ok (some p)) × (p.session_id ≡ s)

  default_phase-Finds :
      (w : World) → all_seeded s presets w.phases ≡ true → Finds w (default_phase s)
  unfolding default_phase get_by_session_and_key gets pure ◌>>=◌
  default_phase-Finds w h =
      let (p, found) = planning-some w.phases h in
      let own = (find_first-Memᴰ (has_phase_key s "planning") w.phases found).1 in
      (p, rw found refl, (eq_iff p.session_id s).0 (ground (arith, own)))

  active_or_default-Finds :
      (w : World) (o : Option PhaseRecord)
      → all_seeded s presets w.phases ≡ true
      → Finds w (active_or_default s o)
  unfolding active_or_default pure
  active_or_default-Finds w none h = default_phase-Finds w h
  active_or_default-Finds w (some p) h = elim (Bool-cases (p.session_id == s)) [
    | inl e ↦ (p, rw e refl, (eq_iff p.session_id s).0 e)
    | inr e ↦ rw e (default_phase-Finds w h)
  ]

  phase_with_id-Finds :
      (w : World) (o : Option String)
      → all_seeded s presets w.phases ≡ true
      → Finds w (phase_with_id o >>= active_or_default s)
  unfolding phase_with_id get pure ◌>>=◌
  phase_with_id-Finds w none h = active_or_default-Finds w none h
  phase_with_id-Finds w (some id) h = active_or_default-Finds w (find_row (λ r. r.id) id w.phases) h

  -- For a session that is there `get_active_phase` always returns a phase, and one of the session:
  -- a start of a run never finds the session without a phase.
  pub get_active_phase-some :
      (w : World) (session : SessionRecord)
      → find_row (λ r. r.id) s w.sessions ≡ some session
      → (p : PhaseRecord) × ((get_active_phase s w).0 ≡ ok (some p)) × (p.session_id ≡ s)
  unfolding get_active_phase get_session get some_or_raise pure ◌>>=◌
  get_active_phase-some w session found =
      let first = ensure_default_phases-Ensured s w session found in
      let again : find_row (λ r. r.id) s (ensure_default_phases s w).1.sessions ≡ some session =
        rw first.sessions found in
      let next =
        phase_with_id-Finds (ensure_default_phases s w).1 session.active_phase_id first.seeded in
      (next.0, rw (found, first.returns, again) next.1, next.2)
