-- ===== src/Coordinator.antt =====
-- The requests that app/api/ sends to the services of jobs and approvals, and the states that they
-- lead to, one request after another.
pub mod Frame
pub mod Serve
pub mod Bound
pub mod Decisions
use codex_collaboration_coor.Common.{ℕ, String, Option, List}
use codex_collaboration_coor.Common.Json.{Fields}
use codex_collaboration_coor.Exec.{Exec, pure, ◌>>=◌, ◌>>◌}
use codex_collaboration_coor.Store.{World}
use codex_collaboration_coor.Store.Env.{Env}
use codex_collaboration_coor.Approvals.{accept, decline}
use codex_collaboration_coor.Relay.Execute.{execute_job}
use codex_collaboration_coor.Relay.Commands.{interrupt_job, compact_job}
use codex_collaboration_coor.Queue.{schedule_job, retry_job, resume_job, dispatch_pending_for_agent}
use codex_collaboration_coor.Recovery.{recover_queued_jobs, recover_thread_mappings}

pub data Request : Type 0 where
  execute : (job_id relay_reason : String) → Request
  interrupt compact retry resume : (job_id : String) (reason : Option String) → Request
  schedule :
      (job_id input_type : String) (input_payload : Option Fields) (relay_reason : String) → Request
  dispatch_pending : (agent_id : String) → Request
  recover : Request
  accept_approval decline_approval : (approval_id : String) (payload : Option Fields) → Request

module _ ⦃env : Env⦄ (digits : ℕ → String) (max_relay_edges_per_agent : ℕ) where
  unfoldable pub serve : Request → Exec World (Unit {0})
  serve (execute j r) = execute_job digits max_relay_edges_per_agent j r >> pure tt
  serve (interrupt j r) = interrupt_job j r >> pure tt
  serve (compact j r) = compact_job j r >> pure tt
  serve (retry j r) = retry_job digits max_relay_edges_per_agent j r >> pure tt
  serve (resume j r) = resume_job digits max_relay_edges_per_agent j r >> pure tt
  serve (schedule j t p r) = schedule_job digits max_relay_edges_per_agent j t p r >> pure tt
  serve (dispatch_pending a) =
      dispatch_pending_for_agent digits max_relay_edges_per_agent a >> pure tt
  -- app/main.py, at startup
  serve recover =
      recover_thread_mappings >> recover_queued_jobs digits max_relay_edges_per_agent >> pure tt
  serve (accept_approval a p) = accept a p >> pure tt
  serve (decline_approval a p) = decline a p >> pure tt

  -- The states that a sequence of requests leads to, whether they return or raise.
  pub data Reaches (w : World) : World → Type 0 where
    start : Reaches w w
    next : (v : World) → Reaches w v → (r : Request) → Reaches w (serve r v).1
