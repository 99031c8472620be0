-- ===== src/Phases/Keeps.antt =====
-- What app/services/phase_service.py writes: phases, and the active phase of a session.
use codex_collaboration_coor.Common.{String, Option, none, some, List, [], ◌∷◌, any_of, ◌==◌}
use codex_collaboration_coor.Exec.{◌>>=◌, pure}
use codex_collaboration_coor.Exec.Keeps.{Keeps, Keeps-bind, Keeps-if, Keeps-both, keeps_rules}
use codex_collaboration_coor.Store.{World}
use codex_collaboration_coor.Store.Env.{Env}
use codex_collaboration_coor.Store.Records.Phases.{PhaseRecord}
use codex_collaboration_coor.Store.Keeps.{
  Unseen, Frame, Keeps-create, Keeps-get, Keeps-utc_now, Keeps-new_id,
}
use codex_collaboration_coor.Store.Repositories.Phases.{
  phase_repository, list_phases_by_session, get_by_session_and_key,
}
use codex_collaboration_coor.LoopGuard.{get_session}
use codex_collaboration_coor.Phases.{
  PhasePresetDefinition, create_preset, seed_presets, ensure_default_phases, default_phase,
  or_first, active_or_default, phase_with_id, get_active_phase,
}

module _ {P : World → Type 0} (f : Frame P) (phases : Unseen P phase_repository) ⦃env : Env⦄ where
  pub Keeps-get_session : (s : String) → Keeps P (get_session s)
  unfolding get_session
  Keeps-get_session s = search (keeps_rules, Keeps-get)

  Keeps-create_preset : (s : String) (p : PhasePresetDefinition) → Keeps P (create_preset s p)
  unfolding create_preset
  Keeps-create_preset s p =
      search (keeps_rules, Keeps-create, Keeps-utc_now f, Keeps-new_id f, phases) depth 8

  Keeps-seed_presets :
      (s : String) (existing : List PhaseRecord) (ps : List PhasePresetDefinition)
      → Keeps P (seed_presets s existing ps)
  unfolding seed_presets
  Keeps-seed_presets s existing [] = search keeps_rules
  Keeps-seed_presets s existing (p ∷ ps) =
      let rest = Keeps-seed_presets s existing ps in
      Keeps-if (any_of (λ r. r.phase_key == p.phase_key) existing) (seed_presets s existing ps)
        (create_preset s p >>= λ phase.
          seed_presets s existing ps >>= λ created. pure (phase ∷ created))
        (λ known. rest) (λ missing. Keeps-both _ _ ◌∷◌ (Keeps-create_preset s p) rest)

  pub Keeps-ensure_default_phases : (s : String) → Keeps P (ensure_default_phases s)
  unfolding ensure_default_phases list_phases_by_session
  Keeps-ensure_default_phases s =
      search (keeps_rules, Keeps-get_session, Keeps-seed_presets) depth 8

  Keeps-or_first : (s : String) (o : Option PhaseRecord) → Keeps P (or_first s o)
  unfolding list_phases_by_session
  Keeps-or_first s (some p) = search keeps_rules
  Keeps-or_first s none = search keeps_rules

  Keeps-default_phase : (s : String) → Keeps P (default_phase s)
  unfolding default_phase get_by_session_and_key list_phases_by_session
  Keeps-default_phase s = Keeps-bind _ _ (search keeps_rules) (Keeps-or_first s)

  Keeps-active_or_default : (s : String) (o : Option PhaseRecord) → Keeps P (active_or_default s o)
  unfolding active_or_default
  Keeps-active_or_default s none = Keeps-default_phase s
  Keeps-active_or_default s (some p) = search (keeps_rules, Keeps-default_phase)

  Keeps-phase_with_id : (o : Option String) → Keeps P (phase_with_id o)
  unfolding phase_with_id
  Keeps-phase_with_id none = search keeps_rules
  Keeps-phase_with_id (some id) = search (keeps_rules, Keeps-get)

  pub Keeps-get_active_phase : (s : String) → Keeps P (get_active_phase s)
  unfolding get_active_phase
  Keeps-get_active_phase s =
      search
        (
          keeps_rules, Keeps-get_session, Keeps-ensure_default_phases, Keeps-phase_with_id,
          Keeps-active_or_default,
        )
        depth 10
