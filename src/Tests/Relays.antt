-- ===== src/Tests/Relays.antt =====
-- Relays on the sample database.
use codex_collaboration_coor.Common.{
  String, [], ◌∷◌, inl, some, ◌<◌, ◌+◌, ◌≡◌, ◌≢◌, refl, none, arith, true, leb, is_none, not,
}
use codex_collaboration_coor.Common.Json.{end}
use codex_collaboration_coor.Exec.{Outcome, ok, err}
use codex_collaboration_coor.Store.{World}
use codex_collaboration_coor.Store.Statuses.{queued, failed, completed}
use codex_collaboration_coor.Relay.Edges.{relays}
use codex_collaboration_coor.Relay.Result.{RelayExecutionResult}
use codex_collaboration_coor.Relay.Execute.{execute_job}
use codex_collaboration_coor.Relay.Constraints.{execute_job-unlisted_reason}
use codex_collaboration_coor.Relay.Asking.{publish_turn-needs_approval}
use codex_collaboration_coor.Relay.Turn.{Turn}
use codex_collaboration_coor.Relay.Publish.{publish_turn}
use codex_collaboration_coor.Recovery.{recover_queued_jobs}
use codex_collaboration_coor.Recovery.Edges.{relay_edges-recover_queued_jobs}
use codex_collaboration_coor.Relay.Commands.{interrupt_job}
use codex_collaboration_coor.Relay.Ended.{
  status_at, after_commands, interrupt, compact, after_commands-ended,
}
use codex_collaboration_coor.Relay.Interrupts.{interrupt_job-again}
use codex_collaboration_coor.LoopGuard.{LoopGuardDecision, evaluate}
use codex_collaboration_coor.LoopGuard.Laws.{evaluate-relays}
use codex_collaboration_coor.Coordinator.{execute, retry, serve, start, next}
use codex_collaboration_coor.Coordinator.Bound.{relays-Reaches}
use codex_collaboration_coor.Samples.{
  sample_env, sample_digits, world_with, job_with, sample_session, sample_agent,
}
use codex_collaboration_coor.Tests.{result}

abbrev after_one : World
after_one =
    (execute_job ⦃env = sample_env⦄ sample_digits 3 "job_1" "manual_relay" (world_with queued)).1

-- One relay adds one edge.
one_relay : relays "ses_1" "agt_1" after_one ≡ 1
unfolding result
one_relay = refl

abbrev event_of : Outcome RelayExecutionResult → String
event_of (ok r) = r.event_type
event_of (err e) = ""

-- At a limit of one relay the guard pauses.
pauses :
    event_of
      (execute_job ⦃env = sample_env⦄ sample_digits 1 "job_1" "manual_relay" (world_with queued)).0
    ≡ "job.paused_by_loop_guard"
unfolding result
pauses = refl

relays-Reaches_example :
    relays "ses_1" "agt_1"
      (serve ⦃env = sample_env⦄ sample_digits 3
        (execute "job_1" "manual_relay")
        (serve ⦃env = sample_env⦄ sample_digits 3 (retry "job_1" none) (world_with failed)).1).1
    < 3
relays-Reaches_example =
    relays-Reaches ⦃env = sample_env⦄ sample_digits 3 "ses_1" "agt_1" (world_with failed) _
      (ground arith) (next _ (next _ start (retry "job_1" none)) (execute "job_1" "manual_relay"))

execute_job-unlisted_reason_example :
    event_of (
      ok (record {
        job_id = "job_1";
        session_id = "ses_1";
        agent_id = "agt_1";
        thread_id = none;
        turn_id = none;
        message_id = none;
        event_type = "job.paused_by_loop_guard";
      }))
    ≡ "job.paused_by_loop_guard"
unfolding result
execute_job-unlisted_reason_example =
    execute_job-unlisted_reason ⦃env = sample_env⦄ "startup_recovery" refl sample_digits 1 "job_1"
      (world_with queued) _ refl

-- A turn that asks for input.
abbrev asking_turn : Turn
asking_turn = record {
  payload = end;
  id = "turn_1";
  text = "May I?";
  status = "input_required";
  thread = record {
    id = "ctm_1";
    session_id = "ses_1";
    agent_id = "agt_1";
    runtime_id = none;
    codex_thread_id = "thread_1";
    is_active = true;
    created_at = "then";
    updated_at = "then";
  };
  at = "now";
}

abbrev any_result : RelayExecutionResult
any_result = record {
  job_id = "job_1";
  session_id = "ses_1";
  agent_id = "agt_1";
  thread_id = none;
  turn_id = none;
  message_id = none;
  event_type = "relay.output.published";
}

publish_turn-needs_approval_example :
    (publish_turn ⦃env = sample_env⦄
      (job_with queued)
      sample_session
      sample_agent
      "manual_relay"
      asking_turn
      (world_with queued)).0
    ≢ ok any_result
publish_turn-needs_approval_example =
    publish_turn-needs_approval ⦃env = sample_env⦄ (job_with queued) sample_session sample_agent
      "manual_relay" asking_turn (world_with queued) any_result refl

evaluate-relays_example :
    (d : LoopGuardDecision) × (evaluate ⦃env = sample_env⦄ sample_digits 1
        (job_with queued)
        after_one
      ≡ (ok d, after_one))
    × (d.prior_edges ≡ relays "ses_1" "agt_1" after_one)
    × (d.should_pause ≡ leb 1 (relays "ses_1" "agt_1" after_one + 1))
    × (is_none d.reason ≡ not d.should_pause)
evaluate-relays_example =
    evaluate-relays ⦃env = sample_env⦄ sample_digits 1 (job_with queued) after_one

interrupt_job-again_example :
    (interrupt_job ⦃env = sample_env⦄ "job_1" none
      (interrupt_job ⦃env = sample_env⦄ "job_1" none after_one).1).1
    ≡ (interrupt_job ⦃env = sample_env⦄ "job_1" none after_one).1
unfolding result
interrupt_job-again_example =
    interrupt_job-again ⦃env = sample_env⦄ "job_1" none none after_one _ refl

relay_edges-recover_queued_jobs_example :
    (recover_queued_jobs ⦃env = sample_env⦄ sample_digits 3 (world_with queued)).1.relay_edges
    ≡ (world_with queued).relay_edges
relay_edges-recover_queued_jobs_example =
    relay_edges-recover_queued_jobs ⦃env = sample_env⦄ sample_digits 3 (world_with queued)

after_commands-ended_example :
    status_at "job_1"
      (after_commands ⦃env = sample_env⦄
        (interrupt "job_1" none ∷ compact "job_1" (some "long") ∷ interrupt "job_1" none ∷ [])
        (world_with completed)).jobs
    ≡ some completed
unfolding result
after_commands-ended_example =
    after_commands-ended ⦃env = sample_env⦄
      (interrupt "job_1" none ∷ compact "job_1" (some "long") ∷ interrupt "job_1" none ∷ []) "job_1"
      completed (world_with completed) (inl refl) refl
