-- ===== src/Events/Keeps.antt =====
-- What the events of app/services/session_events.py leave alone.
use codex_collaboration_coor.Common.{String, Option, List}
use codex_collaboration_coor.Common.Json.{Fields}
use codex_collaboration_coor.Exec.Keeps.{Keeps, Keeps-bind}
use codex_collaboration_coor.Store.{World}
use codex_collaboration_coor.Store.Records.{JobRecord, ApprovalRequestRecord}
use codex_collaboration_coor.Store.Env.{Env, utc_now, new_id}
use codex_collaboration_coor.Store.Keeps.{Keeps-create}
use codex_collaboration_coor.Events.{record_session_event, record_job_event}

-- A predicate on the jobs and the approvals.
abbrev pub Tables : (List JobRecord → List ApprovalRequestRecord → Type 0) → World → Type 0
Tables P w = P w.jobs w.approvals

module _ (P : List JobRecord → List ApprovalRequestRecord → Type 0) ⦃env : Env⦄ where
  pub Keeps-utc_now : Keeps (Tables P) utc_now
  unfolding utc_now
  Keeps-utc_now = record { at = λ w h. h }

  Keeps-new_id : (prefix : String) → Keeps (Tables P) (new_id prefix)
  unfolding new_id
  Keeps-new_id prefix = record { at = λ w h. h }

  pub Keeps-job_event :
      (job : JobRecord) (e : String) (p : Fields) (at : String)
      → Keeps (Tables P) (record_job_event job e p at)
  unfolding record_job_event
  Keeps-job_event job e p at =
      Keeps-bind _ _ (Keeps-new_id "jbe_") (λ id. Keeps-create _ (record { at = λ w rs h. h }) _)

  pub Keeps-session_event :
      (s e : String) (t a : Option String) (p : Fields) (at : String)
      → Keeps (Tables P) (record_session_event s e t a p at)
  unfolding record_session_event
  Keeps-session_event s e t a p at =
      Keeps-bind _ _ (Keeps-new_id "evt_") (λ id. Keeps-create _ (record { at = λ w rs h. h }) _)
