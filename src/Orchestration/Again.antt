-- ===== src/Orchestration/Again.antt =====
-- Repeated calls of app/services/orchestration_engine.py.
use codex_collaboration_coor.Common.{
  String, true, Option, none, some, ◌≡◌, refl, subst, find_first, eq_refl, ◌==◌, Bool-cases, inl,
  inr, List,
}
use codex_collaboration_coor.Exec.{ok, ◌>>=◌, pure, gets}
use codex_collaboration_coor.Exec.Keeps.{Keeps-some_or_raise}
use codex_collaboration_coor.Exec.Ensures.{Ensures, Ensures-bind, Ensures-kept}
use codex_collaboration_coor.Store.{World}
use codex_collaboration_coor.Store.Env.{Env, utc_now}
use codex_collaboration_coor.Store.Records.Phases.{
  PhaseRecord, OrchestrationRunRecord, GateStatus, idle, pending, approved, rejected,
  is_gate_pending, same_gate_status,
}
use codex_collaboration_coor.Store.Table.{update}
use codex_collaboration_coor.Store.Table.Rows.{has_row}
use codex_collaboration_coor.Store.Repositories.Phases.{
  orchestration_run_repository, get_run_by_session,
}
use codex_collaboration_coor.Phases.Keeps.{Keeps-get_session, Keeps-get_active_phase}
use codex_collaboration_coor.Orchestration.{
  GateResolution, same_text, resolved_run, matches_resolved_gate, create_or_restart, start_run,
  record_gate_resolution,
}
use codex_collaboration_coor.Orchestration.Frame.{Runs, Frame-Runs, Unseen-phases}

same_text_refl : (o : Option String) → same_text o o ≡ true
same_text_refl none = refl
same_text_refl (some a) = eq_refl a

same_gate_status_refl : (g : GateStatus) → same_gate_status g g ≡ true
same_gate_status_refl idle = refl
same_gate_status_refl pending = refl
same_gate_status_refl approved = refl
same_gate_status_refl rejected = refl

matches-resolved_run :
    (run : OrchestrationRunRecord) (g : GateResolution) (now : String)
    → matches_resolved_gate (resolved_run run g now) g ≡ true
unfolding matches_resolved_gate resolved_run
matches-resolved_run run g now =
    let phase = eq_refl g.resolved_phase_id in
    let key = eq_refl g.resolved_phase_key in
    let gate = same_gate_status_refl g.gate_status in
    let decision = eq_refl g.decision_artifact_id in
    let revision = same_text_refl g.revision_job_id in
    elim (Bool-cases g.is_completed) [
      | inl e ↦ rw (phase, key, gate, decision, revision, e) refl
      | inr e ↦ rw (phase, key, gate, decision, revision, e) refl
    ]

module _ ⦃env : Env⦄ where
  resolved-matches :
      (run saved : OrchestrationRunRecord) (g : GateResolution) (w : World)
      → (record_gate_resolution run g w).0 ≡ ok saved
      → matches_resolved_gate saved g ≡ true
  unfolding record_gate_resolution update utc_now pure ◌>>=◌
  resolved-matches run saved g w h = elim (Bool-cases (matches_resolved_gate run g)) [
    | inl e ↦
        let same : run ≡ saved = cc (e, h) in subst (λ r. matches_resolved_gate r g ≡ true) same e
    | inr e ↦
        let now = env.now w.clock_reads in
        let made = resolved_run run g now in
        elim (Bool-cases (has_row (λ r. r.id) made.id w.orchestration_runs)) [
          | inr gone ↦ absurd (cc (e, gone, h))
          | inl there ↦ elim (Bool-cases (orchestration_run_repository.admits made)) [
            | inr refused ↦ absurd (cc (e, there, refused, h))
            | inl fits ↦
                let same : made ≡ saved = cc (e, there, fits, h) in
                subst (λ r. matches_resolved_gate r g ≡ true) same (matches-resolved_run run g now)
          ]
        ]
  ]

  -- Once `record_gate_resolution` has returned a run, the same resolution of that run returns it
  -- unchanged and writes nothing, whatever happened to the database in between.
  pub record_gate_resolution-again :
      (run saved : OrchestrationRunRecord) (g : GateResolution) (w later : World)
      → (record_gate_resolution run g w).0 ≡ ok saved
      → record_gate_resolution saved g later ≡ (ok saved, later)
  unfolding record_gate_resolution pure
  record_gate_resolution-again run saved g w later h = rw (resolved-matches run saved g w h) refl

  abbrev Same : List OrchestrationRunRecord → World → Type 0
  Same rows = Runs (λ rs. rs ≡ rows)

  held_run :
      (rows : List OrchestrationRunRecord) (id : String) (phase : PhaseRecord)
      (run : OrchestrationRunRecord) (o : Option OrchestrationRunRecord)
      → is_gate_pending run.gate_status ≡ true
      → Ensures
          (λ w. (o ≡ some run) × Same rows w)
          (λ x w. (x ≡ run) × Same rows w)
          (utc_now >>= create_or_restart id phase o)
  unfolding create_or_restart utc_now pure ◌>>=◌
  held_run rows id phase run o held = record {
    at = λ w h x e.
        let got : ok run ≡ ok x = rw (h.0, held) at e in
        let same : x ≡ run = cc got in rw (h.0, held) (same, h.1);
  }

  stored :
      (s : String) (rows : List OrchestrationRunRecord) (run : OrchestrationRunRecord) (w : World)
      (o : Option OrchestrationRunRecord)
      → find_first (λ x. x.session_id == s) rows ≡ some run
      → w.orchestration_runs ≡ rows
      → (get_run_by_session s w).0 ≡ ok o
      → o ≡ some run
  unfolding get_run_by_session gets
  stored s rows run w o found h e = let got : ok (some run) ≡ ok o = rw (h, found) at e in cc got

  pending_run :
      (s : String) (rows : List OrchestrationRunRecord) (run : OrchestrationRunRecord)
      → find_first (λ x. x.session_id == s) rows ≡ some run
      → is_gate_pending run.gate_status ≡ true
      → Ensures (Same rows) (λ x w. (x ≡ run) × Same rows w) (start_run s)
  unfolding start_run get_run_by_session gets
  pending_run s rows run found held =
      let f = Frame-Runs (λ rs. rs ≡ rows) in
      let u = Unseen-phases (λ rs. rs ≡ rows) in
      Ensures-bind (λ _. Same rows) _ _ (Ensures-kept _ (Keeps-get_session f u s))
        (λ session.
          Ensures-bind (λ _. Same rows) _ _ (Ensures-kept _ (Keeps-get_active_phase f u s))
            (λ active.
              Ensures-bind (λ _. Same rows) _ _ (Ensures-kept _ (Keeps-some_or_raise _ active))
                (λ phase.
                  Ensures-bind (λ o w. (o ≡ some run) × Same rows w) _ _
                    (record { at = λ w h o e. (stored s rows run w o found h e, h) })
                    (λ o. held_run rows session.id phase run o held))))

  -- Where the run of a session waits at a gate, a `start_run` of the session that returns gives that
  -- run as it is and changes no run: a pending gate is not lost by a new start.
  pub start_run-pending :
      (s : String) (run r : OrchestrationRunRecord) (w : World)
      → find_first (λ x. x.session_id == s) w.orchestration_runs ≡ some run
      → is_gate_pending run.gate_status ≡ true
      → (start_run s w).0 ≡ ok r
      → (r ≡ run) × ((start_run s w).1.orchestration_runs ≡ w.orchestration_runs)
  start_run-pending s run r w found held h =
      (pending_run s w.orchestration_runs run found held).at w refl r h
