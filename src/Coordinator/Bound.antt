-- ===== src/Coordinator/Bound.antt =====
-- The number of relays to an agent in a session, through every request.
use codex_collaboration_coor.Common.{ℕ, String, ◌<◌}
use codex_collaboration_coor.Exec.Keeps.{Keeps}
use codex_collaboration_coor.Store.{World}
use codex_collaboration_coor.Store.Env.{Env}
use codex_collaboration_coor.Relay.Edges.{relays}
use codex_collaboration_coor.Relay.Bound.{Below, Below-Frame, execute_job-Below}
use codex_collaboration_coor.Coordinator.{Request, serve, Reaches, start, next}
use codex_collaboration_coor.Coordinator.Frame.{Keeps-resolve}
use codex_collaboration_coor.Coordinator.Serve.{Keeps-serve}

module _ ⦃env : Env⦄ (digits : ℕ → String) (n : ℕ) (s a : String) where
  serve-Below : (r : Request) → Keeps (Below n s a) (serve digits n r)
  serve-Below r =
      Keeps-serve (Below-Frame n s a) digits n (record { at = λ w rs h. h })
        (execute_job-Below n s a digits)
        (Keeps-resolve (Below-Frame n s a) (record { at = λ w rs h. h })) r

-- Whatever requests are served, in whatever order and whether they return or raise, an agent with
-- fewer relays in a session than the limit of the loop guard never gets to that many.
pub relays-Reaches :
    ⦃env : Env⦄ (digits : ℕ → String) (n : ℕ) (session_id agent_id : String) (w v : World)
    → relays session_id agent_id w < n
    → Reaches digits n w v
    → relays session_id agent_id v < n
relays-Reaches digits n s a w v below start = below
relays-Reaches digits n s a w v below (next u reached r) =
    (serve-Below digits n s a r).at u (relays-Reaches digits n s a w u below reached)
