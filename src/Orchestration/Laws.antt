-- ===== src/Orchestration/Laws.antt =====
-- The state of the runs of app/services/orchestration_engine.py.
use codex_collaboration_coor.Common.{
  String, Bool, true, false, not, Option, none, some, List, [], ◌∷◌, ◌≡◌, refl, all_of, arith,
  if◌then◌else◌, Bool-cases, inl, inr, all_of-append,
}
use codex_collaboration_coor.Exec.{pure}
use codex_collaboration_coor.Exec.Keeps.{Keeps, Keeps-bind, Keeps-if, keeps_rules}
use codex_collaboration_coor.Store.{World}
use codex_collaboration_coor.Store.Env.{Env}
use codex_collaboration_coor.Store.Records.Phases.{
  PhaseRecord, OrchestrationRunRecord, is_blocked, is_gate_pending,
}
use codex_collaboration_coor.Store.Keeps.{Unseen, Frame, Keeps-utc_now, Keeps-new_id}
use codex_collaboration_coor.Store.Table.{create, update}
use codex_collaboration_coor.Store.Table.Rows.{has_row, all_of-replace_row}
use codex_collaboration_coor.Store.Repositories.Phases.{
  orchestration_run_repository, phase_repository, get_run_by_session,
}
use codex_collaboration_coor.Orchestration.Frame.{Frame-Runs, Unseen-phases}
use codex_collaboration_coor.Phases.Keeps.{Keeps-get_session, Keeps-get_active_phase}
use codex_collaboration_coor.Orchestration.{
  GateRequest, GateResolution, fresh_run, restarted_run, requested_run, resolved_run,
  create_or_restart, start_run, record_gate_request, record_gate_resolution,
}

-- A run is blocked exactly while its gate is pending.
abbrev pub coherent : OrchestrationRunRecord → Bool
coherent r =
    if is_blocked r.status
    then is_gate_pending r.gate_status
    else not (is_gate_pending r.gate_status)

abbrev pub Coherent : World → Type 0
Coherent w = all_of coherent w.orchestration_runs ≡ true

framed : Frame Coherent
framed = Frame-Runs (λ rs. all_of coherent rs ≡ true)

unseen : Unseen Coherent phase_repository
unseen = Unseen-phases (λ rs. all_of coherent rs ≡ true)

create-Coherent :
    (r : OrchestrationRunRecord)
    → coherent r ≡ true
    → Keeps Coherent (create orchestration_run_repository r)
unfolding create
create-Coherent r fits = record {
  at = λ w h. elim (Bool-cases (orchestration_run_repository.admits r)) [
    | inl e ↦ rw (e, all_of-append coherent w.orchestration_runs (r ∷ []), h, fits) refl
    | inr e ↦ rw e h
  ];
}

update-Coherent :
    (r : OrchestrationRunRecord)
    → coherent r ≡ true
    → Keeps Coherent (update orchestration_run_repository r)
unfolding update
update-Coherent r fits = record {
  at = λ w h. elim (Bool-cases (has_row (λ x. x.id) r.id w.orchestration_runs)) [
    | inr e ↦ rw e h
    | inl e ↦ elim (Bool-cases (orchestration_run_repository.admits r)) [
      | inl a ↦ rw (e, a) (all_of-replace_row (λ x. x.id) coherent r w.orchestration_runs fits h)
      | inr a ↦ rw (e, a) h
    ]
  ];
}

module _ ⦃env : Env⦄ where
  create_or_restart-Coherent :
      (id : String) (phase : PhaseRecord) (o : Option OrchestrationRunRecord) (now : String)
      → Keeps Coherent (create_or_restart id phase o now)
  unfolding create_or_restart fresh_run restarted_run
  create_or_restart-Coherent id phase none now =
      Keeps-bind _ _ (Keeps-new_id framed "orn_") (λ n. create-Coherent _ refl)
  create_or_restart-Coherent id phase (some existing) now =
      Keeps-if (is_gate_pending existing.gate_status) (pure existing)
        (update orchestration_run_repository (restarted_run existing phase now))
        (λ held. search keeps_rules) (λ free. update-Coherent _ refl)

  pub start_run-Coherent : (s : String) → Keeps Coherent (start_run s)
  unfolding start_run get_run_by_session
  start_run-Coherent s =
      search
        (
          keeps_rules,
          Keeps-get_session framed unseen,
          Keeps-get_active_phase framed unseen,
          Keeps-utc_now framed,
          create_or_restart-Coherent,
        )
        depth 12

  requested-Coherent :
      (run : OrchestrationRunRecord) (g : GateRequest) (now : String)
      → coherent (requested_run run g now) ≡ true
  unfolding requested_run
  requested-Coherent run g now = refl

  pub record_gate_request-Coherent :
      (s : String) (g : GateRequest) → Keeps Coherent (record_gate_request s g)
  unfolding record_gate_request
  record_gate_request-Coherent s g =
      search
        (keeps_rules, start_run-Coherent, Keeps-utc_now framed, update-Coherent, requested-Coherent)
        depth 12

  resolved-Coherent :
      (run : OrchestrationRunRecord) (g : GateResolution) (now : String)
      → is_gate_pending g.gate_status ≡ false
      → coherent (resolved_run run g now) ≡ true
  unfolding resolved_run
  resolved-Coherent run g now h = elim (Bool-cases g.is_completed) [
    | inl e ↦ rw (e, h) refl
    | inr e ↦ rw (e, h) refl
  ]

  pub record_gate_resolution-Coherent :
      (run : OrchestrationRunRecord) (g : GateResolution)
      → is_gate_pending g.gate_status ≡ false
      → Keeps Coherent (record_gate_resolution run g)
  unfolding record_gate_resolution
  record_gate_resolution-Coherent run g h =
      search (keeps_rules, Keeps-utc_now framed, update-Coherent, resolved-Coherent) depth 12

-- A call of the service.
pub data Call : Type 0 where
  start : String → Call
  request : String → GateRequest → Call
  resolve : OrchestrationRunRecord → GateResolution → Call

-- A resolution gives a gate another status than pending.
abbrev pub resolves : Call → Bool
resolves (start s) = true
resolves (request s g) = true
resolves (resolve run g) = not (is_gate_pending g.gate_status)

module _ ⦃env : Env⦄ where
  -- The database after a call, whether it returns or raises, and after several.
  unfoldable pub after_call : Call → World → World
  after_call (start s) w = (start_run s w).1
  after_call (request s g) w = (record_gate_request s g w).1
  after_call (resolve run g) w = (record_gate_resolution run g w).1

  unfoldable pub after_calls : List Call → World → World
  after_calls [] w = w
  after_calls (c ∷ cs) w = after_calls cs (after_call c w)

  after_call-Coherent :
      (c : Call) (w : World) → resolves c ≡ true → Coherent w → Coherent (after_call c w)
  unfolding after_call
  after_call-Coherent (start s) w r h = (start_run-Coherent s).at w h
  after_call-Coherent (request s g) w r h = (record_gate_request-Coherent s g).at w h
  after_call-Coherent (resolve run g) w r h =
      (record_gate_resolution-Coherent run g (ground (arith, r))).at w h

  -- If every run is blocked exactly while its gate is pending, then so it is after any sequence of
  -- starts, gate requests and resolutions, each with any run and any arguments but a resolution to
  -- `pending`, and whichever of them raise.
  pub after_calls-Coherent :
      (cs : List Call) (w : World)
      → all_of resolves cs ≡ true
      → Coherent w
      → Coherent (after_calls cs w)
  unfolding after_calls
  after_calls-Coherent [] w r h = h
  after_calls-Coherent (c ∷ cs) w r h = elim (Bool-cases (resolves c)) [
    | inl e ↦ after_calls-Coherent cs (after_call c w) (rw e at r) (after_call-Coherent c w e h)
    | inr e ↦ absurd (cc (e, r))
  ]
