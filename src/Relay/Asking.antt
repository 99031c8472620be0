-- ===== src/Relay/Asking.antt =====
-- Turns that ask for input or for authorisation, in app/services/relay_engine.py, and what a relay does
-- to the tables that it does not write.
use codex_collaboration_coor.Common.{
  ℕ, String, ◌==◌, Bool, true, false, Bool-cases, inl, inr, Option, none, some, List, [], ◌∷◌, ◌≡◌,
  ◌≢◌, refl, one_of, if◌then◌else◌, eq_iff,
}
use codex_collaboration_coor.Common.Json.{Fields}
use codex_collaboration_coor.Exec.{ok}
use codex_collaboration_coor.Exec.Keeps.{Keeps, Keeps-bind, Keeps-pure, keeps_rules}
use codex_collaboration_coor.Exec.Moves.{Returns, Returns-bind, Returns-bind_never}
use codex_collaboration_coor.Store.{World}
use codex_collaboration_coor.Store.Records.{
  JobRecord, SessionRecord, AgentRecord, ApprovalRequestRecord,
}
use codex_collaboration_coor.Store.Env.{Env}
use codex_collaboration_coor.Store.Repositories.{relay_edge_repository, approval_repository}
use codex_collaboration_coor.Store.Keeps.{
  Frame, Unseen, Keeps-get, Keeps-create, Keeps-create_refused, Keeps-update, Keeps-new_id,
  Keeps-list_edges,
}
use codex_collaboration_coor.LoopGuard.{LoopGuardDecision, evaluate, get_session}
use codex_collaboration_coor.Approvals.{get_job, create_request}
use codex_collaboration_coor.Relay.Result.{RelayExecutionResult}
use codex_collaboration_coor.Relay.Turn.{Turn, needs_approval}
use codex_collaboration_coor.Relay.Publish.{record_relay_edge, publish_turn, request_approval}
use codex_collaboration_coor.Relay.Commands.{get_agent}
use codex_collaboration_coor.Relay.Execute.{pause_relay, run_turn, guarded, execute_job}
use codex_collaboration_coor.Relay.Frame.{
  Keeps-pause_job, Keeps-start_turn, Keeps-record_job_event, Keeps-record_session_event,
  Keeps-create_artifacts, Keeps-publish_output_message,
}
use codex_collaboration_coor.Relay.Constraints.{create_refused-never}

-- An approval whose type is the status of a turn.
needs_approval-refused :
    (status : String)
    → needs_approval status ≡ true
    → one_of status ("command_execution" ∷ "file_change" ∷ "network_access" ∷ "custom" ∷ []) ≡ false
needs_approval-refused status h = elim (Bool-cases (status == "input_required")) [
  | inl e ↦ rw ((eq_iff status "input_required").0 e) refl
  | inr e ↦ rw ((eq_iff status "auth_required").0 (rw e at h)) refl
]

module _ ⦃env : Env⦄ where
  -- The database refuses every approval that a turn asks for.
  create_request-Keeps :
      {P : World → Type 0}
      → Frame P
      → (job : JobRecord) (status : String) (p : Fields) (m : Option Fields) (at : String)
      → needs_approval status ≡ true
      → Keeps P (create_request job status p m at)
  unfolding create_request
  create_request-Keeps f job status p m at h = Keeps-bind _ _ (Keeps-new_id f "apr_") (λ id.
      Keeps-bind _ _ (Keeps-create_refused approval_repository _ (needs_approval-refused status h))
        (λ created. search (keeps_rules, Keeps-record_job_event f, Keeps-record_session_event f)))

  create_request-never :
      (job : JobRecord) (status : String) (p : Fields) (m : Option Fields) (at : String)
      → needs_approval status ≡ true
      → Returns (λ _. ⊥) (create_request job status p m at)
  unfolding create_request
  create_request-never job status p m at h = Returns-bind _ _ (λ id.
      Returns-bind_never (λ _. ⊥) _ _
        (create_refused-never approval_repository _ (needs_approval-refused status h)))

  request_approval-never :
      (job : JobRecord) (turn : Turn)
      → needs_approval turn.status ≡ true
      → Returns (λ _. ⊥) (request_approval job turn)
  unfolding request_approval
  request_approval-never job turn h =
      rw h (Returns-bind_never (λ _. ⊥) _ _ (create_request-never job turn.status _ _ turn.at h))

  publish_turn-never_approved :
      (job : JobRecord) (session : SessionRecord) (agent : AgentRecord) (reason : String)
      (turn : Turn)
      → needs_approval turn.status ≡ true
      → Returns (λ _. ⊥) (publish_turn job session agent reason turn)
  unfolding publish_turn
  publish_turn-never_approved job session agent reason turn h = Returns-bind _ _ (λ updated.
      Returns-bind _ _ (λ seen. Returns-bind_never (λ _. ⊥) _ _ (request_approval-never _ turn h)))

  request_approval-Keeps :
      {P : World → Type 0}
      → Frame P
      → (job : JobRecord) (turn : Turn) → Keeps P (request_approval job turn)
  unfolding request_approval
  request_approval-Keeps f job turn = search (keeps_rules, create_request-Keeps f)

  pub record_relay_edge-sees :
      {P : World → Type 0}
      → Frame P
      → Unseen P relay_edge_repository
      → (reason : String) (job : JobRecord) (at : String)
      → Keeps P (record_relay_edge job reason at)
  unfolding record_relay_edge
  record_relay_edge-sees f unseen reason job at =
      Keeps-bind _ _ (Keeps-new_id f "red_") (λ id. Keeps-create relay_edge_repository unseen _)

  module _ {P : World → Type 0} (f : Frame P) (reason : String)
      (edge : (job : JobRecord) (at : String) → Keeps P (record_relay_edge job reason at)) where
    publish_turn-Keeps :
        (job : JobRecord) (session : SessionRecord) (agent : AgentRecord) (turn : Turn)
        → Keeps P (publish_turn job session agent reason turn)
    unfolding publish_turn
    publish_turn-Keeps job session agent turn =
        search
          (
            keeps_rules,
            Keeps-update,
            f.jobs,
            Keeps-record_job_event f,
            request_approval-Keeps f,
            Keeps-create_artifacts f,
            Keeps-publish_output_message f,
            Keeps-record_session_event f,
            edge,
          )
          depth 14

    run_turn-Keeps :
        (job : JobRecord) (session : SessionRecord) (agent : AgentRecord)
        → Keeps P (run_turn job session agent reason)
    unfolding run_turn
    run_turn-Keeps job session agent =
        Keeps-bind _ _ (Keeps-start_turn f job) (publish_turn-Keeps job session agent)

    pause_relay-Keeps : (job : JobRecord) (why : String) → Keeps P (pause_relay job why)
    unfolding pause_relay
    pause_relay-Keeps job why = Keeps-bind _ _ (Keeps-pause_job f job why) (λ paused. Keeps-pure _)

    guarded-Keeps :
        (decision : LoopGuardDecision) (job : JobRecord) (go : _)
        → Keeps P go
        → Keeps P (guarded decision job go)
    guarded-Keeps decision job go kept = by_test decision.should_pause decision.reason
      where
        by_test :
            (b : Bool) (o : Option String)
            → Keeps P (if b then elim o [ none ↦ go | some why ↦ pause_relay job why ] else go)
        by_test true (some why) = pause_relay-Keeps job why
        by_test true none = kept
        by_test false o = kept

    evaluate-Keeps :
        (digits : ℕ → String) (n : ℕ) (job : JobRecord) → Keeps P (evaluate digits n job)
    unfolding evaluate
    evaluate-Keeps digits n job = search (keeps_rules, Keeps-list_edges)

    -- A relay keeps whatever does not see the tables that it writes; approvals are not among them.
    pub execute_job-Keeps :
        (digits : ℕ → String) (n : ℕ) (job_id : String)
        → Keeps P (execute_job digits n job_id reason)
    unfolding execute_job get_job get_session get_agent
    execute_job-Keeps digits n job_id =
        search (keeps_rules, Keeps-get, evaluate-Keeps, guarded-Keeps, run_turn-Keeps) depth 14

pub approvals_frame : (P : List ApprovalRequestRecord → Type 0) → Frame (λ w. P w.approvals)
approvals_frame P = record {
  jobs = record { at = λ w rs h. h };
  job_events = record { at = λ w rs h. h };
  sessions = record { at = λ w rs h. h };
  session_events = record { at = λ w rs h. h };
  messages = record { at = λ w rs h. h };
  artifacts = record { at = λ w rs h. h };
  threads = λ w ts h. h;
  clock = λ w h. h;
  ids = λ w h. h;
  bridge = λ w h. h;
}

-- What follows a turn that asks for input or for authorisation never returns a result.
pub publish_turn-needs_approval :
    ⦃env : Env⦄ (job : JobRecord) (session : SessionRecord) (agent : AgentRecord) (reason : String)
    (turn : Turn) (w : World) (r : RelayExecutionResult)
    → needs_approval turn.status ≡ true
    → (publish_turn job session agent reason turn w).0 ≢ ok r
publish_turn-needs_approval job session agent reason turn w r h e =
    (publish_turn-never_approved job session agent reason turn h).at w r e
