-- ===== src/Phases/Laws.antt =====
-- The phases that `ensure_default_phases` of app/services/phase_service.py leaves in a session.
use codex_collaboration_coor.Common.{
  String, ◌<>◌, ◌+◌, ◌==◌, ◌||◌, ◌++◌, Bool, true, none, some, List, [], ◌∷◌, ◌≡◌, refl, any_of,
  all_of, select, arith, Bool-cases, Option-cases, inl, inr, any_of-append, any_of-select, eq_refl,
  ◌∙◌, sym, append-nil, append-snoc,
}
use codex_collaboration_coor.LoopGuard.{get_session}
use codex_collaboration_coor.Exec.{ok, ◌>>=◌, pure, raise, gets, some_or_raise}
use codex_collaboration_coor.Store.{World}
use codex_collaboration_coor.Store.Records.{SessionRecord}
use codex_collaboration_coor.Store.Records.Phases.{PhaseRecord}
use codex_collaboration_coor.Store.Env.{Env, utc_now, new_id}
use codex_collaboration_coor.Store.Table.{create, get}
use codex_collaboration_coor.Store.Table.Rows.{find_row, order_by, any_of-order_by}
use codex_collaboration_coor.Store.Repositories.Phases.{
  phases_of, has_phase_key, phase_before, list_phases_by_session,
}
use codex_collaboration_coor.Phases.{
  PhasePresetDefinition, presets, preset_row, create_preset, seed_presets, ensure_default_phases,
}

-- Each preset has a row of the session.
abbrev pub all_seeded : String → List PhasePresetDefinition → List PhaseRecord → Bool
all_seeded s ps rows = all_of (λ p. any_of (has_phase_key s p.phase_key) rows) ps

any_of-phases_of :
    (s k : String) (rows : List PhaseRecord)
    → any_of (λ r. r.phase_key == k) (phases_of s rows) ≡ any_of (has_phase_key s k) rows
any_of-phases_of s k rows =
    any_of-order_by phase_before (λ r. r.phase_key == k) (select (λ r. r.session_id == s) rows)
    ∙ any_of-select (λ r. r.session_id == s) (λ r. r.phase_key == k) rows

module _ ⦃env : Env⦄ (s : String) where
  abbrev covered : List PhaseRecord → List PhaseRecord → List PhasePresetDefinition → Bool
  covered existing created ps =
      all_of
        (λ p.
          any_of (λ r. r.phase_key == p.phase_key) existing
          || any_of (has_phase_key s p.phase_key) created)
        ps

  widen :
      (existing : List PhaseRecord) (row : PhaseRecord) (created : List PhaseRecord)
      (ps : List PhasePresetDefinition)
      → covered existing created ps ≡ true
      → covered existing (row ∷ created) ps ≡ true
  widen existing row created [] h = refl
  widen existing row created (p ∷ ps) h = ground (arith, widen existing row created ps)

  -- What the loop over the presets does to the tables.
  record Seeded (existing : List PhaseRecord) (ps : List PhasePresetDefinition) (w : World)
      : Type 0 where
    created : List PhaseRecord
    returns : (seed_presets s existing ps w).0 ≡ ok created
    rows : (seed_presets s existing ps w).1.phases ≡ w.phases ++ created
    sessions : (seed_presets s existing ps w).1.sessions ≡ w.sessions
    covers : covered existing created ps ≡ true

  seed_presets-Seeded :
      (existing : List PhaseRecord) (ps : List PhasePresetDefinition) (w : World)
      → Seeded existing ps w
  unfolding seed_presets create_preset preset_row create utc_now new_id pure ◌>>=◌
  seed_presets-Seeded existing [] w = record {
    created = [];
    returns = refl;
    rows = sym (append-nil w.phases);
    sessions = refl;
    covers = refl;
  }
  seed_presets-Seeded existing (p ∷ ps) w =
      elim (Bool-cases (any_of (λ r. r.phase_key == p.phase_key) existing)) [
        | inl e ↦
            let rest = seed_presets-Seeded existing ps w in
            record {
              created = rest.created;
              returns = rw e rest.returns;
              rows = rw e rest.rows;
              sessions = rw e rest.sessions;
              covers = rw e rest.covers;
            }
        | inr e ↦
            let row = preset_row s p ("ph_" <> env.hex w.ids_drawn) (env.now w.clock_reads) in
            let later = record w {
              clock_reads = w.clock_reads + 1;
              ids_drawn = w.ids_drawn + 1;
              phases = w.phases ++ row ∷ [];
            } in
            let rest = seed_presets-Seeded existing ps later in
            record {
              created = row ∷ rest.created;
              returns = rw (e, rest.returns) refl;
              rows = rw (e, rest.returns) (rest.rows ∙ append-snoc w.phases row rest.created);
              sessions = rw (e, rest.returns) rest.sessions;
              covers =
                  rw (e, eq_refl s, eq_refl p.phase_key)
                    (widen existing row rest.created ps rest.covers);
            }
      ]

  -- Every preset has a row once those of `existing` and of `created` are in the table.
  covered-all_seeded :
      (rows created : List PhaseRecord) (ps : List PhasePresetDefinition)
      → covered (phases_of s rows) created ps ≡ true
      → all_seeded s ps (rows ++ created) ≡ true
  covered-all_seeded rows created [] h = refl
  covered-all_seeded rows created (p ∷ ps) h = ground (
    arith,
    any_of-append (has_phase_key s p.phase_key) rows created,
    any_of-phases_of s p.phase_key rows,
    covered-all_seeded rows created ps,
  )

  -- Where every preset has a row the loop does nothing.
  seed_presets-all_seeded :
      (rows : List PhaseRecord) (ps : List PhasePresetDefinition) (w : World)
      → all_seeded s ps rows ≡ true
      → seed_presets s (phases_of s rows) ps w ≡ (ok [], w)
  unfolding seed_presets pure
  seed_presets-all_seeded rows [] w h = refl
  seed_presets-all_seeded rows (p ∷ ps) w h =
      elim (Bool-cases (any_of (has_phase_key s p.phase_key) rows)) [
        | inr e ↦ absurd (cc (e, h))
        | inl e ↦
            rw (any_of-phases_of s p.phase_key rows, e)
              (seed_presets-all_seeded rows ps w (rw e at h))
      ]

  -- What `ensure_default_phases` leaves in a session that is there.
  pub record Ensured (w : World) : Type 0 where
    pub phases : List PhaseRecord
    pub returns : (ensure_default_phases s w).0 ≡ ok phases
    pub seeded : all_seeded s presets (ensure_default_phases s w).1.phases ≡ true
    pub sessions : (ensure_default_phases s w).1.sessions ≡ w.sessions

  pub ensure_default_phases-Ensured :
      (w : World) (session : SessionRecord)
      → find_row (λ r. r.id) s w.sessions ≡ some session
      → Ensured w
  unfolding ensure_default_phases get_session get some_or_raise list_phases_by_session gets pure
      ◌>>=◌
  ensure_default_phases-Ensured w session found =
      let loop = seed_presets-Seeded (phases_of s w.phases) presets w in
      record {
        phases = order_by phase_before (phases_of s w.phases ++ loop.created);
        returns = rw (found, loop.returns) refl;
        seeded =
            rw (found, loop.returns, loop.rows)
              (covered-all_seeded w.phases loop.created presets loop.covers);
        sessions = rw (found, loop.returns) loop.sessions;
      }

  unchanged :
      (w : World) (session : SessionRecord)
      → find_row (λ r. r.id) s w.sessions ≡ some session
      → all_seeded s presets w.phases ≡ true
      → (ensure_default_phases s w).1 ≡ w
  unfolding ensure_default_phases get_session get some_or_raise list_phases_by_session gets pure
      ◌>>=◌
  unchanged w session found seeded =
      rw (found, seed_presets-all_seeded w.phases presets w seeded) refl

  missing_session :
      (w : World) → find_row (λ r. r.id) s w.sessions ≡ none → (ensure_default_phases s w).1 ≡ w
  unfolding ensure_default_phases get_session get some_or_raise raise ◌>>=◌
  missing_session w e = rw e refl

  -- Once `ensure_default_phases` has run on a session, with a result or with an error, running it
  -- again changes nothing: no preset is created twice, and nothing else is written.
  pub ensure_default_phases-again :
      (w : World)
      → (ensure_default_phases s (ensure_default_phases s w).1).1 ≡ (ensure_default_phases s w).1
  ensure_default_phases-again w = elim (Option-cases (find_row (λ r. r.id) s w.sessions)) [
    | inl e ↦ rw (missing_session w e) (missing_session w e)
    | inr (session, e) ↦
        let first = ensure_default_phases-Ensured w session e in
        unchanged (ensure_default_phases s w).1 session (rw first.sessions e) first.seeded
  ]
