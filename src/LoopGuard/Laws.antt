-- ===== src/LoopGuard/Laws.antt =====
-- What `evaluate` of app/services/loop_guard.py decides.
use codex_collaboration_coor.Common.{ℕ, ◌+◌, String, ◌≡◌, refl, leb, is_none, not}
use codex_collaboration_coor.Exec.{ok, ◌>>=◌}
use codex_collaboration_coor.Store.{World}
use codex_collaboration_coor.Store.Records.{JobRecord}
use codex_collaboration_coor.Store.Env.{Env}
use codex_collaboration_coor.Store.Repositories.{list_edges_by_session}
use codex_collaboration_coor.LoopGuard.{LoopGuardDecision, evaluate}
use codex_collaboration_coor.Relay.Edges.{
  relays, decision_at, should_pause-relays, prior_edges-relays, no_reason-not_pause,
}

-- `evaluate` always returns and changes nothing. It counts the relays that the job's agent has had in
-- the job's session, asks for a pause exactly where one more reaches the limit, and gives a reason
-- exactly where it asks for a pause.
pub evaluate-relays :
    ⦃env : Env⦄ (digits : ℕ → String) (n : ℕ) (job : JobRecord) (w : World)
    → (d : LoopGuardDecision) × (evaluate digits n job w ≡ (ok d, w))
      × (d.prior_edges ≡ relays job.session_id job.assigned_agent_id w)
      × (d.should_pause ≡ leb n (relays job.session_id job.assigned_agent_id w + 1))
      × (is_none d.reason ≡ not d.should_pause)
unfolding evaluate list_edges_by_session ◌>>=◌
evaluate-relays digits n job w = (
  decision_at digits n job w,
  refl,
  prior_edges-relays digits n job w,
  should_pause-relays digits n job w,
  no_reason-not_pause digits n job w,
)
