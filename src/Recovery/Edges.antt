-- ===== src/Recovery/Edges.antt =====
-- The relay edges and the startup of app/services/recovery.py.
use codex_collaboration_coor.Common.{ℕ, String, ◌≡◌, refl}
use codex_collaboration_coor.Store.{World}
use codex_collaboration_coor.Store.Env.{Env}
use codex_collaboration_coor.Recovery.{recover_queued_jobs}
use codex_collaboration_coor.Relay.Edges.{edges_frame}
use codex_collaboration_coor.Relay.Constraints.{record_relay_edge-Keeps}
use codex_collaboration_coor.Relay.Asking.{execute_job-Keeps}
use codex_collaboration_coor.Coordinator.Serve.{Keeps-recover_queued_jobs}

-- Recovering the queued jobs changes no relay edge, however many of them are relayed and published.
pub relay_edges-recover_queued_jobs :
    ⦃env : Env⦄ (digits : ℕ → String) (n : ℕ) (w : World)
    → (recover_queued_jobs digits n w).1.relay_edges ≡ w.relay_edges
relay_edges-recover_queued_jobs digits n w =
    let f = edges_frame (λ es. es ≡ w.relay_edges) in
    (Keeps-recover_queued_jobs f digits n (λ j.
        execute_job-Keeps f "startup_recovery" (record_relay_edge-Keeps "startup_recovery" refl f)
          digits n j)).at
      w refl
