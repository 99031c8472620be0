-- ===== src/Relay/Edges.antt =====
-- The relay edges that `execute_job` of app/services/relay_engine.py and the loop guard of
-- app/services/loop_guard.py write and count.
use codex_collaboration_coor.Common.{
  ℕ, ◌+◌, String, ◌==◌, ◌&&◌, Bool, true, false, none, some, List, [], ◌∷◌, ◌≡◌, refl, arith, leb,
  select, count_of, length-select, if◌then◌else◌, is_none, not,
}
use codex_collaboration_coor.Store.{World}
use codex_collaboration_coor.Store.Records.{JobRecord, RelayEdgeRecord}
use codex_collaboration_coor.Store.Table.Rows.{order_by, text_before, count_of-order_by}
use codex_collaboration_coor.Store.Keeps.{Frame}
use codex_collaboration_coor.LoopGuard.{LoopGuardDecision, decide}

-- An edge to an agent in a session.
abbrev pub leads_to : String → String → RelayEdgeRecord → Bool
leads_to session_id agent_id e = e.session_id == session_id && e.target_agent_id == agent_id

-- How many relays an agent has had in a session.
abbrev pub relays : String → String → World → ℕ
relays session_id agent_id w = count_of (leads_to session_id agent_id) w.relay_edges

-- What does not look past the relay edges is not seen by the rest of a relay.
pub edges_frame : (P : List RelayEdgeRecord → Type 0) → Frame (λ w. P w.relay_edges)
edges_frame P = record {
  jobs = record { at = λ w rs h. h };
  job_events = record { at = λ w rs h. h };
  sessions = record { at = λ w rs h. h };
  session_events = record { at = λ w rs h. h };
  messages = record { at = λ w rs h. h };
  artifacts = record { at = λ w rs h. h };
  threads = λ w ts h. h;
  clock = λ w h. h;
  ids = λ w h. h;
  bridge = λ w h. h;
}

count_of-select :
    (s a : String) (es : List RelayEdgeRecord)
    → count_of (λ e. e.target_agent_id == a) (select (λ e. e.session_id == s) es)
      ≡ count_of (leads_to s a) es
count_of-select s a [] = refl
count_of-select s a (e ∷ es) = ground (arith, count_of-select s a es)

-- The edges that the loop guard counts are the agent's in the session.
pub prior_edges-relays :
    (digits : ℕ → String) (n : ℕ) (job : JobRecord) (w : World)
    → (decide digits n job (
        order_by
          (text_before (λ r. r.created_at) (λ r. r.id))
          (select (λ r. r.session_id == job.session_id) w.relay_edges))).prior_edges
      ≡ relays job.session_id job.assigned_agent_id w
unfolding decide
prior_edges-relays digits n job w =
    rw (length-select, count_of-order_by)
      (count_of-select job.session_id job.assigned_agent_id w.relay_edges)

-- The decision that `evaluate` takes in a state.
abbrev pub decision_at : (ℕ → String) → ℕ → JobRecord → World → LoopGuardDecision
decision_at digits n job w = decide digits n job (
    order_by (text_before (λ r. r.created_at) (λ r. r.id))
      (select (λ r. r.session_id == job.session_id) w.relay_edges))

-- The guard's decision, as its two fields that the engine reads.
pub should_pause-relays :
    (digits : ℕ → String) (n : ℕ) (job : JobRecord) (w : World)
    → (decision_at digits n job w).should_pause
      ≡ leb n (relays job.session_id job.assigned_agent_id w + 1)
unfolding decide
should_pause-relays digits n job w =
    rw (length-select, count_of-order_by)
      (rw (count_of-select job.session_id job.assigned_agent_id w.relay_edges))

some_if :
    (b : Bool) (x : String) → b ≡ true → (r : String) × ((if b then some x else none) ≡ some r)
some_if true x e = (x, refl)
some_if false x e = absurd (cc)

-- A decision to pause has a reason.
pub pause-reason :
    (digits : ℕ → String) (n : ℕ) (job : JobRecord) (w : World)
    → (decision_at digits n job w).should_pause ≡ true
    → (reason : String) × ((decision_at digits n job w).reason ≡ some reason)
unfolding decide
pause-reason digits n job w e = some_if _ _ e

none_if : (b : Bool) (x : String) → is_none (if b then some x else none) ≡ not b
none_if true x = refl
none_if false x = refl

-- A reason stands exactly beside a pause.
pub no_reason-not_pause :
    (digits : ℕ → String) (n : ℕ) (job : JobRecord) (w : World)
    → is_none (decision_at digits n job w).reason ≡ not (decision_at digits n job w).should_pause
unfolding decide
no_reason-not_pause digits n job w = none_if _ _
