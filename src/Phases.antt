-- ===== src/Phases.antt =====
-- app/services/phase_service.py
pub mod Keeps
pub mod Laws
pub mod Active
use codex_collaboration_coor.Common.{
  String, ◌<>◌, ◌==◌, ◌&&◌, ◌++◌, Bool, true, false, not, Option, none, some, List, [], ◌∷◌, any_of,
  find_first, head, is_text, if◌then◌else◌,
}
use codex_collaboration_coor.Common.Int.{ℤ, pos}
use codex_collaboration_coor.Exec.{Exec, pure, raise, some_or_raise, lookup_error, ◌>>=◌, ◌>>◌}
use codex_collaboration_coor.Store.{World}
use codex_collaboration_coor.Store.Records.{SessionRecord}
use codex_collaboration_coor.Store.Records.Phases.{PhaseRecord}
use codex_collaboration_coor.Store.Env.{Env, utc_now, new_id}
use codex_collaboration_coor.Store.Table.{get, create, update}
use codex_collaboration_coor.Store.Table.Rows.{order_by}
use codex_collaboration_coor.Store.Repositories.{session_repository}
use codex_collaboration_coor.Store.Repositories.Phases.{
  phase_repository, phase_before, list_phases_by_session, get_by_session_and_key,
}
use codex_collaboration_coor.LoopGuard.{get_session}

pub record PhasePresetDefinition : Type 0 where
  pub phase_key : String
  pub title : String
  pub description : Option String
  pub relay_template_key : String
  pub default_channel_key : String
  pub sort_order : ℤ
  pub is_default : Bool

abbrev planning : PhasePresetDefinition
planning = record {
  phase_key = "planning";
  title = "Planning";
  description = some "Capture goals, scope, and handoff direction before implementation.";
  relay_template_key = "planner_to_builder";
  default_channel_key = "planning";
  sort_order = pos 10;
  is_default = true;
}

abbrev implementation : PhasePresetDefinition
implementation = record {
  phase_key = "implementation";
  title = "Implementation";
  description = some "Carry out the work and keep the session on the execution track.";
  relay_template_key = "planner_to_builder";
  default_channel_key = "general";
  sort_order = pos 20;
  is_default = false;
}

abbrev review : PhasePresetDefinition
review = record {
  phase_key = "review";
  title = "Review";
  description = some "Review the current work and capture structured feedback.";
  relay_template_key = "builder_to_reviewer";
  default_channel_key = "review";
  sort_order = pos 30;
  is_default = false;
}

abbrev revise : PhasePresetDefinition
revise = record {
  phase_key = "revise";
  title = "Revise";
  description = some "Apply review feedback and prepare the next implementation pass.";
  relay_template_key = "reviewer_to_builder_revise";
  default_channel_key = "review";
  sort_order = pos 40;
  is_default = false;
}

abbrev finalize : PhasePresetDefinition
finalize = record {
  phase_key = "finalize";
  title = "Finalize";
  description = some "Wrap up the work and prepare the session for completion.";
  relay_template_key = "builder_to_reviewer";
  default_channel_key = "general";
  sort_order = pos 50;
  is_default = false;
}

-- `_PRESETS`
abbrev pub presets : List PhasePresetDefinition
presets = planning ∷ implementation ∷ review ∷ revise ∷ finalize ∷ []

pub record PhaseActivationResult : Type 0 where
  pub session : SessionRecord
  pub phase : PhaseRecord

module _ ⦃env : Env⦄ where
  unfoldable pub preset_row : String → PhasePresetDefinition → String → String → PhaseRecord
  preset_row session_id preset id now = record {
    id = id;
    session_id = session_id;
    phase_key = preset.phase_key;
    title = preset.title;
    description = preset.description;
    relay_template_key = preset.relay_template_key;
    default_channel_key = preset.default_channel_key;
    sort_order = preset.sort_order;
    is_default = if preset.is_default then 1 else 0;
    created_at = now;
    updated_at = now;
  }

  unfoldable pub create_preset : String → PhasePresetDefinition → Exec World PhaseRecord
  create_preset session_id preset = do
    now ← utc_now
    id ← new_id "ph_"
    create phase_repository (preset_row session_id preset id now)

  -- The loop over the presets, for those whose key no phase of the session has.
  unfoldable pub seed_presets :
      String → List PhaseRecord → List PhasePresetDefinition → Exec World (List PhaseRecord)
  seed_presets session_id existing [] = pure []
  seed_presets session_id existing (preset ∷ rest) =
      let seed_rest = seed_presets session_id existing rest in
      if any_of (λ phase. phase.phase_key == preset.phase_key) existing
      then seed_rest
      else (do phase ← create_preset session_id preset; created ← seed_rest; pure (phase ∷ created))

  unfoldable pub ensure_default_phases : String → Exec World (List PhaseRecord)
  ensure_default_phases session_id = do
    get_session session_id
    existing ← list_phases_by_session session_id
    created ← seed_presets session_id existing presets
    pure (order_by phase_before (existing ++ created))

  abbrev or_seeded : String → List PhaseRecord → Exec World (List PhaseRecord)
  or_seeded session_id [] = ensure_default_phases session_id
  or_seeded session_id (phase ∷ phases) = pure (order_by phase_before (phase ∷ phases))

  unfoldable pub list_phases : String → Exec World (List PhaseRecord)
  list_phases session_id = do
    get_session session_id
    phases ← list_phases_by_session session_id
    or_seeded session_id phases

  abbrev pub or_first : String → Option PhaseRecord → Exec World (Option PhaseRecord)
  or_first session_id (some phase) = pure (some phase)
  or_first session_id none = do phases ← list_phases_by_session session_id; pure (head phases)

  unfoldable pub default_phase : String → Exec World (Option PhaseRecord)
  default_phase session_id = do
    found ← get_by_session_and_key session_id "planning"
    or_first session_id found

  unfoldable pub active_or_default : String → Option PhaseRecord → Exec World (Option PhaseRecord)
  active_or_default session_id none = default_phase session_id
  active_or_default session_id (some phase) =
      if phase.session_id == session_id then pure (some phase) else default_phase session_id

  unfoldable pub phase_with_id : Option String → Exec World (Option PhaseRecord)
  phase_with_id none = pure none
  phase_with_id (some phase_id) = get phase_repository phase_id

  unfoldable pub get_active_phase : String → Exec World (Option PhaseRecord)
  get_active_phase session_id = do
    get_session session_id
    ensure_default_phases session_id
    session ← get_session session_id
    found ← phase_with_id session.active_phase_id
    active_or_default session_id found

  -- Log and telemetry are left out.
  unfoldable pub activate_phase : String → PhaseRecord → Exec World PhaseActivationResult
  activate_phase session_id phase = do
    session ← get_session session_id
    if is_text session.active_phase_id phase.id
        then pure (record { session = session; phase = phase })
        else (do
          now ← utc_now
          saved ←
              update session_repository
                (record session { active_phase_id = some phase.id; updated_at = now })
          pure (record { session = saved; phase = phase }))

  unfoldable pub activate_phase_by_key : String → String → Exec World PhaseActivationResult
  activate_phase_by_key session_id phase_key = do
    ensure_default_phases session_id
    found ← get_by_session_and_key session_id phase_key
    phase ←
        some_or_raise
          (lookup_error ("Phase not found in session " <> session_id <> ": " <> phase_key)) found
    activate_phase session_id phase

  abbrev own_phase : String → Option PhaseRecord → Option PhaseRecord
  own_phase session_id none = none
  own_phase session_id (some phase) = if phase.session_id == session_id then some phase else none

  unfoldable pub activate_phase_by_id : String → String → Exec World PhaseActivationResult
  activate_phase_by_id session_id phase_id = do
    ensure_default_phases session_id
    found ← get phase_repository phase_id
    phase ←
        some_or_raise
          (lookup_error ("Phase not found in session " <> session_id <> ": " <> phase_id))
          (own_phase session_id found)
    activate_phase session_id phase
