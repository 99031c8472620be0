-- ===== src/Relay/Constraints.antt =====
-- Rows that the CHECK constraints of app/db/migrations/ refuse, and the reason of a relay in
-- app/services/relay_engine.py.
use codex_collaboration_coor.Common.{
  ℕ, String, Bool, true, false, Option, none, some, [], ◌∷◌, ◌≡◌, refl, one_of, if◌then◌else◌,
}
use codex_collaboration_coor.Exec.{ok, ◌>>=◌}
use codex_collaboration_coor.Exec.Keeps.{Keeps, Keeps-bind}
use codex_collaboration_coor.Exec.Moves.{Returns, Returns-bind, Returns-bind_never, Returns-pure}
use codex_collaboration_coor.Store.{World}
use codex_collaboration_coor.Store.Records.{JobRecord, SessionRecord, AgentRecord}
use codex_collaboration_coor.Store.Env.{Env}
use codex_collaboration_coor.Store.Table.{Table, create}
use codex_collaboration_coor.Store.Repositories.{relay_edge_repository}
use codex_collaboration_coor.Store.Keeps.{Frame, Keeps-create_refused, Keeps-new_id}
use codex_collaboration_coor.LoopGuard.{LoopGuardDecision}
use codex_collaboration_coor.Relay.Result.{RelayExecutionResult}
use codex_collaboration_coor.Relay.Turn.{Turn}
use codex_collaboration_coor.Relay.Publish.{record_relay_edge, publish_turn}
use codex_collaboration_coor.Relay.Execute.{pause_relay, run_turn, guarded, execute_job}

-- A reason that the CHECK on relay_edges.relay_reason lists.
abbrev pub is_relay_reason : String → Bool
is_relay_reason reason = one_of reason ("mention" ∷ "policy_auto_relay" ∷ "manual_relay" ∷ [])

pub create_refused-never :
    {R : Type 0} (t : Table R) (r : R) → t.admits r ≡ false → Returns (λ _. ⊥) (create t r)
unfolding create
create_refused-never t r refused = record { at = λ w a e. cc (refused, e) }

module _ ⦃env : Env⦄ (reason : String) (unlisted : is_relay_reason reason ≡ false) where
  record_relay_edge-never :
      (job : JobRecord) (at : String) → Returns (λ _. ⊥) (record_relay_edge job reason at)
  unfolding record_relay_edge
  record_relay_edge-never job at =
      Returns-bind _ _ (λ id. create_refused-never relay_edge_repository _ unlisted)

  pub record_relay_edge-Keeps :
      {P : World → Type 0}
      → Frame P
      → (job : JobRecord) (at : String) → Keeps P (record_relay_edge job reason at)
  unfolding record_relay_edge
  record_relay_edge-Keeps f job at =
      Keeps-bind _ _ (Keeps-new_id f "red_")
        (λ id. Keeps-create_refused relay_edge_repository _ unlisted)

  publish_turn-never :
      (job : JobRecord) (session : SessionRecord) (agent : AgentRecord) (turn : Turn)
      → Returns (λ _. ⊥) (publish_turn job session agent reason turn)
  unfolding publish_turn
  publish_turn-never job session agent turn =
      search (Returns-bind, Returns-bind_never, record_relay_edge-never) depth 10

  run_turn-never :
      (job : JobRecord) (session : SessionRecord) (agent : AgentRecord)
      → Returns (λ _. ⊥) (run_turn job session agent reason)
  unfolding run_turn
  run_turn-never job session agent = Returns-bind _ _ (publish_turn-never job session agent)

  pause_relay-Returns :
      (job : JobRecord) (why : String)
      → Returns (λ r. r.event_type ≡ "job.paused_by_loop_guard") (pause_relay job why)
  unfolding pause_relay ◌>>=◌
  pause_relay-Returns job why =
      Returns-bind _ _
        (λ paused. Returns-pure (λ r. r.event_type ≡ "job.paused_by_loop_guard") _ refl)

  guarded-Returns :
      (decision : LoopGuardDecision) (job : JobRecord) (session : SessionRecord)
      (agent : AgentRecord)
      → Returns
          (λ r. r.event_type ≡ "job.paused_by_loop_guard")
          (guarded decision job (run_turn job session agent reason))
  guarded-Returns decision job session agent = by_test decision.should_pause decision.reason
    where
      refused :
          Returns
            (λ r. r.event_type ≡ "job.paused_by_loop_guard")
            (run_turn job session agent reason)
      refused = record { at = λ w r e. absurd ((run_turn-never job session agent).at w r e) }

      by_test :
          (b : Bool) (o : Option String)
          → Returns
              (λ r. r.event_type ≡ "job.paused_by_loop_guard")
              (if b
                then elim o [
                  | none ↦ run_turn job session agent reason
                  | some why ↦ pause_relay job why
                ]
                else run_turn job session agent reason)
      by_test true (some why) = pause_relay-Returns job why
      by_test true none = refused
      by_test false o = refused

  execute_job-Returns :
      (digits : ℕ → String) (n : ℕ) (job_id : String)
      → Returns
          (λ r. r.event_type ≡ "job.paused_by_loop_guard")
          (execute_job digits n job_id reason)
  unfolding execute_job
  execute_job-Returns digits n job_id = Returns-bind _ _ (λ job. Returns-bind _ _ (λ session.
      Returns-bind _ _
        (λ agent. Returns-bind _ _ (λ decision. guarded-Returns decision job session agent))))

  -- With a relay reason that the CHECK does not list, a relay that returns is one that the loop guard
  -- paused.
  pub execute_job-unlisted_reason :
      (digits : ℕ → String) (n : ℕ) (job_id : String) (w : World) (r : RelayExecutionResult)
      → (execute_job digits n job_id reason w).0 ≡ ok r
      → r.event_type ≡ "job.paused_by_loop_guard"
  execute_job-unlisted_reason digits n job_id w r e = (execute_job-Returns digits n job_id).at w r e
