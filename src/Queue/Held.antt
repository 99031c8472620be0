-- ===== src/Queue/Held.antt =====
-- Scheduled jobs that a rule holds, or whose agent has no running runtime, in
-- app/services/offline_queue.py.
use codex_collaboration_coor.Common.{
  ℕ, String, Bool, true, false, ◌||◌, not, Bool-cases, inl, inr, Option, some, List, ◌≡◌, refl, sym,
  ◌∙◌, ap, if◌then◌else◌, select, any_of, ◌==◌, ◌&&◌,
}
use codex_collaboration_coor.Common.Json.{Fields}
use codex_collaboration_coor.Exec.{◌>>=◌}
use codex_collaboration_coor.Exec.Keeps.{Keeps, Keeps-bind, Keeps-pure, Keeps-if, keeps_rules}
use codex_collaboration_coor.Exec.Ensures.{Ensures, Ensures-pure, Ensures-if, Keeps-bind_known}
use codex_collaboration_coor.Store.{World}
use codex_collaboration_coor.Store.Records.{JobRecord, RuleRecord, AgentRuntimeRecord}
use codex_collaboration_coor.Store.Env.{Env, utc_now, new_id}
use codex_collaboration_coor.Store.Table.{get}
use codex_collaboration_coor.Store.Table.Rows.{find_row, order_by, text_before}
use codex_collaboration_coor.Store.Repositories.{
  job_repository, list_active_rules, rule_before, list_runtimes,
}
use codex_collaboration_coor.Store.Keeps.{
  Unseen, Keeps-create, Keeps-update, Keeps-list_active_rules, Keeps-list_runtimes,
}
use codex_collaboration_coor.Store.Ensures.{Ensures-update}
use codex_collaboration_coor.Runtimes.{get_latest_runtime_for_agent, latest}
use codex_collaboration_coor.Approvals.{get_job}
use codex_collaboration_coor.Rules.{resolve_job_dispatch}
use codex_collaboration_coor.Rules.Matching.{subject_of}
use codex_collaboration_coor.Rules.Dispatch.{holds, evaluate_rules}
use codex_collaboration_coor.Rules.Laws.{matching, evaluate_rules-spec}
use codex_collaboration_coor.Queue.{
  runs, is_agent_dispatchable, record_input, move_channel, block_job, dispatch_now, schedule_job,
}

-- The rules of a session that are active, in the order in which they apply.
abbrev pub active_rules : String → List RuleRecord → List RuleRecord
active_rules session_id rules =
    order_by rule_before (select (λ r. r.session_id == session_id && r.is_active) rules)

-- The agent's latest runtime.
abbrev pub runtime_of : String → List AgentRuntimeRecord → Option AgentRuntimeRecord
runtime_of agent_id runtimes = latest (
    select (λ r. r.agent_id == agent_id)
      (order_by (text_before (λ r. r.created_at) (λ r. r.id)) runtimes))

-- Rules, runtimes and bridge calls as they were.
abbrev pub Same : World → World → Type 0
Same w v =
    (v.rules ≡ w.rules)
    × (v.runtimes ≡ w.runtimes)
    × (v.bridge_calls ≡ w.bridge_calls)
    × (v.messages ≡ w.messages)
    × (v.relay_edges ≡ w.relay_edges)

-- One of the two reasons, where it is not the first.
idle : (h u : Bool) → (h || u) ≡ true → not h ≡ true → u ≡ true
idle true u e n = absurd (cc n)
idle false u e n = e

module _ ⦃env : Env⦄ (w : World) where
  Same-Unseen : Unseen (Same w) job_repository
  Same-Unseen = record { at = λ v rs h. h }

  Keeps-utc_now : Keeps (Same w) utc_now
  unfolding utc_now
  Keeps-utc_now = record { at = λ v h. h }

  Keeps-new_id : (prefix : String) → Keeps (Same w) (new_id prefix)
  unfolding new_id
  Keeps-new_id prefix = record { at = λ v h. h }

  Keeps-record_input :
      (job : JobRecord) (t : String) (p : Option Fields) → Keeps (Same w) (record_input job t p)
  unfolding record_input
  Keeps-record_input job t p = Keeps-bind _ _ Keeps-utc_now (λ now.
      Keeps-bind _ _ (Keeps-new_id "jni_") (λ id. Keeps-create _ (record { at = λ v rs h. h }) _))

  Keeps-move_channel : (job : JobRecord) (c : String) → Keeps (Same w) (move_channel job c)
  unfolding move_channel
  Keeps-move_channel job c = search (keeps_rules, Keeps-update, Same-Unseen)

  Keeps-block_job : (job : JobRecord) (r : Option String) → Keeps (Same w) (block_job job r)
  unfolding block_job
  Keeps-block_job job r = search (keeps_rules, Keeps-utc_now, Keeps-update, Same-Unseen)

  -- The rules decide as they do in `w`.
  abbrev pub held_by_rules : JobRecord → Bool
  held_by_rules job =
      any_of (λ r. holds r.rule_type)
        (matching (subject_of job) (active_rules job.session_id w.rules))

  abbrev pub unavailable : String → Bool
  unavailable agent_id = not (runs (runtime_of agent_id w.runtimes))

  Keeps-resolve : (job : JobRecord) → Keeps (Same w) (resolve_job_dispatch job)
  unfolding resolve_job_dispatch
  Keeps-resolve job = search (keeps_rules, Keeps-list_active_rules)

  resolve-allowed :
      (job : JobRecord)
      → Ensures
          (Same w)
          (λ r v. r.dispatch_allowed ≡ not (held_by_rules job))
          (resolve_job_dispatch job)
  unfolding resolve_job_dispatch list_active_rules ◌>>=◌
  resolve-allowed job = record {
    at = λ v h r e.
        let is_r : evaluate_rules job (active_rules job.session_id v.rules) ≡ r = cc e in
        ap (λ x. x.dispatch_allowed) (sym is_r)
        ∙ ap (λ x. x.dispatch_allowed)
            (evaluate_rules-spec job (active_rules job.session_id v.rules))
        ∙ ap
            (λ rs. not (
              any_of (λ q. holds q.rule_type)
                (matching (subject_of job) (active_rules job.session_id rs))))
            h.0;
  }

  moved-agent :
      (job : JobRecord) (c : String)
      → Ensures (Same w) (λ m v. m.assigned_agent_id ≡ job.assigned_agent_id) (move_channel job c)
  unfolding move_channel
  moved-agent job c =
      Ensures-if (c == job.channel_key) _ _ (λ same. Ensures-pure job (λ v h. refl))
        (λ differs. record {
          at = λ v h m e.
              let (is_m, has, kept) =
                (Ensures-update job_repository {P = λ _. Unit {0}} _ (λ u rs. refl)
                    (record { at = λ u rs t. t })).at
                  v tt m e in
              ap (λ x. x.assigned_agent_id) is_m;
        })

  Keeps-is_agent_dispatchable : (a : String) → Keeps (Same w) (is_agent_dispatchable a)
  unfolding is_agent_dispatchable get_latest_runtime_for_agent
  Keeps-is_agent_dispatchable a = search (keeps_rules, Keeps-list_runtimes)

  dispatchable-known :
      (a : String)
      → Ensures (Same w) (λ b v. b ≡ runs (runtime_of a w.runtimes)) (is_agent_dispatchable a)
  unfolding is_agent_dispatchable get_latest_runtime_for_agent list_runtimes ◌>>=◌
  dispatchable-known a = record {
    at = λ v h b e.
        let is_b : runs (runtime_of a v.runtimes) ≡ b = cc e in
        sym is_b ∙ ap (λ rs. runs (runtime_of a rs)) (h.1);
  }

  module _ (digits : ℕ → String) (n : ℕ) where
    Keeps-dispatch_now :
        (job : JobRecord) (reason : String)
        → unavailable job.assigned_agent_id ≡ true
        → Keeps (Same w) (dispatch_now digits n job reason)
    unfolding dispatch_now
    Keeps-dispatch_now job reason away =
        Keeps-bind_known (λ b. b ≡ runs (runtime_of job.assigned_agent_id w.runtimes)) _ _
          (Keeps-is_agent_dispatchable job.assigned_agent_id)
          (dispatchable-known job.assigned_agent_id)
          (λ b is_b. elim (Bool-cases b) [
            | inl runs_now ↦ absurd (cc (away, is_b, runs_now))
            | inr not_now ↦ rw not_now (Keeps-pure _)
          ])

    -- After the input is recorded.
    Keeps-dispatch :
        (job : JobRecord) (reason : String)
        → (held_by_rules job || unavailable job.assigned_agent_id) ≡ true
        → Keeps (Same w) (
            resolve_job_dispatch job >>= λ policy. move_channel job policy.channel_key >>= λ moved.
            if policy.dispatch_allowed
            then dispatch_now digits n moved reason
            else block_job moved policy.hold_reason)
    Keeps-dispatch job reason stays =
        Keeps-bind_known (λ r. r.dispatch_allowed ≡ not (held_by_rules job)) _ _ (Keeps-resolve job)
          (resolve-allowed job)
          (λ r allowed.
            Keeps-bind_known (λ m. m.assigned_agent_id ≡ job.assigned_agent_id) _ _
              (Keeps-move_channel job r.channel_key) (moved-agent job r.channel_key)
              (λ m same_agent.
                Keeps-if r.dispatch_allowed _ _
                  (λ go. Keeps-dispatch_now m reason (
                    ap unavailable same_agent
                    ∙ idle (held_by_rules job) (unavailable job.assigned_agent_id) stays
                        (sym allowed ∙ go)))
                  (λ held. Keeps-block_job m r.hold_reason)))

-- A job that a matching rule holds, or whose agent's latest runtime does not run, is scheduled without
-- a call of the bridge, and no message and no relay edge is written, whatever is raised.
pub schedule_job-held :
    ⦃env : Env⦄ (digits : ℕ → String) (n : ℕ) (id input_type : String) (input : Option Fields)
    (reason : String) (w : World) (job : JobRecord)
    → find_row (λ r. r.id) id w.jobs ≡ some job
    → (held_by_rules w job || unavailable w job.assigned_agent_id) ≡ true
    → Same w (schedule_job digits n id input_type input reason w).1
unfolding schedule_job get_job get ◌>>=◌
schedule_job-held digits n id input_type input reason w job found stays = rw found (
    (Keeps-bind _ _ (Keeps-record_input w job input_type input)
        (λ _. Keeps-dispatch w digits n job reason stays)).at
      w (refl, refl, refl, refl, refl))
