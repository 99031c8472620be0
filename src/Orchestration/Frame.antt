-- ===== src/Orchestration/Frame.antt =====
-- A property of the runs of app/services/orchestration_engine.py sees no other table.
use codex_collaboration_coor.Common.{List}
use codex_collaboration_coor.Store.{World}
use codex_collaboration_coor.Store.Records.Phases.{OrchestrationRunRecord}
use codex_collaboration_coor.Store.Keeps.{Unseen, Frame}
use codex_collaboration_coor.Store.Repositories.Phases.{phase_repository}

module _ (Q : List OrchestrationRunRecord → Type 0) where
  abbrev pub Runs : World → Type 0
  Runs w = Q w.orchestration_runs

  pub Frame-Runs : Frame Runs
  Frame-Runs = record {
    jobs = record { at = λ w rs h. h };
    job_events = record { at = λ w rs h. h };
    sessions = record { at = λ w rs h. h };
    session_events = record { at = λ w rs h. h };
    messages = record { at = λ w rs h. h };
    artifacts = record { at = λ w rs h. h };
    threads = λ w ts h. h;
    clock = λ w h. h;
    ids = λ w h. h;
    bridge = λ w h. h;
  }

  pub Unseen-phases : Unseen Runs phase_repository
  Unseen-phases = record { at = λ w rs h. h }
