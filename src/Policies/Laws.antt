-- ===== src/Policies/Laws.antt =====
-- Which policy of app/services/policy_engine_v2.py decides on a gate, and what is recorded.
use codex_collaboration_coor.Common.{
  String, ◌<>◌, ◌==◌, ◌&&◌, ◌++◌, Bool, true, false, Option, none, some, List, [], ◌∷◌, ◌≡◌, refl,
  one_of, find_first, arith, Bool-cases, inl, inr, if◌then◌else◌,
}
use codex_collaboration_coor.Common.Json.{as_str, get as get_field, Fields}
use codex_collaboration_coor.Exec.{ok, ◌>>=◌, pure, gets}
use codex_collaboration_coor.Store.{World}
use codex_collaboration_coor.Store.Records.{SessionRecord}
use codex_collaboration_coor.Store.Records.Policies.{PolicyRecord, PolicyDecisionRecord}
use codex_collaboration_coor.Store.Env.{Env, utc_now, new_id}
use codex_collaboration_coor.Store.Table.{create}
use codex_collaboration_coor.Store.Repositories.Policies.{
  policy_decisions_listed, policies_in, list_policies, policy_decision_repository,
}
use codex_collaboration_coor.Events.{record_session_event}
use codex_collaboration_coor.Rules.Matching.{parse_json}
use codex_collaboration_coor.Policies.{
  Subject, Verdict, PolicyEvaluationResult, no_policy, decision_row, announce, record_decision,
}
use codex_collaboration_coor.Policies.Matching.{
  Context, lookup, context_fields, default_decision, listed_or_default, matches_policy,
  resolve_decision, resolve_reason,
}
use codex_collaboration_coor.Policies.Gates.{decide_first, evaluate_policies}

module _ ⦃env : Env⦄ where
  -- What a policy decides once it is chosen; a paused one lets the gate go on by hand.
  unfoldable pub verdict_of : Option PolicyRecord → Verdict
  verdict_of none = no_policy
  verdict_of (some p) =
      if p.automation_paused
      then record {
        policy = some p;
        decision = "allow";
        reason = "Policy " <> p.name <> " is paused and gate handling fell back to manual";
      }
      else record {
        policy = some p;
        decision = resolve_decision p;
        reason = resolve_reason p (resolve_decision p);
      }

  -- The first active policy, in the order given, that matches the context.
  abbrev pub chosen : Context → List PolicyRecord → Option PolicyRecord
  chosen context ps = find_first (λ p. p.is_active && matches_policy p context) ps

  decide_first-verdict_of :
      (context : Context) (ps : List PolicyRecord)
      → decide_first context ps ≡ verdict_of (chosen context ps)
  unfolding decide_first verdict_of matches_policy
  decide_first-verdict_of context [] = refl
  decide_first-verdict_of context (p ∷ ps) = elim (Bool-cases p.is_active) [
    | inr off ↦ rw off (decide_first-verdict_of context ps)
    | inl on ↦ elim (Bool-cases (matches_policy p context)) [
      | inl fits ↦ elim (Bool-cases p.automation_paused) [
        | inl paused ↦ rw (on, fits, paused) refl
        | inr runs ↦ rw (on, fits, runs) refl
      ]
      | inr other ↦ elim (Bool-cases p.automation_paused) [
        | inl paused ↦ rw (on, other, paused) (decide_first-verdict_of context ps)
        | inr runs ↦ rw (on, other, runs) (decide_first-verdict_of context ps)
      ]
    ]
  ]

  default-listed : (t : String) → one_of (default_decision t) policy_decisions_listed ≡ true
  default-listed t = elim (Bool-cases (t == "conditional_auto_approve")) [
    | inl e ↦ rw e refl
    | inr e ↦ elim (Bool-cases (t == "escalation")) [
      | inl d ↦ rw (e, d) refl
      | inr d ↦ rw (e, d) refl
    ]
  ]

  listed_decision :
      (o : Option String) (t : String)
      → one_of (listed_or_default o t) policy_decisions_listed ≡ true
  listed_decision none t = default-listed t
  listed_decision (some d) t = elim (Bool-cases (one_of d policy_decisions_listed)) [
    | inl e ↦ rw e e
    | inr e ↦ rw e (default-listed t)
  ]

  resolve_decision-listed :
      (p : PolicyRecord) → one_of (resolve_decision p) policy_decisions_listed ≡ true
  unfolding resolve_decision
  resolve_decision-listed p =
      listed_decision (as_str (get_field (parse_json p.actions_json) "decision")) p.policy_type

  either_listed :
      (b : Bool) (v v' : Verdict)
      → one_of v.decision policy_decisions_listed ≡ true
      → one_of v'.decision policy_decisions_listed ≡ true
      → one_of (if b then v else v').decision policy_decisions_listed ≡ true
  either_listed true v v' h h' = h
  either_listed false v v' h h' = h'

  -- The database lists whatever a policy decides.
  verdict_of-listed :
      (o : Option PolicyRecord) → one_of (verdict_of o).decision policy_decisions_listed ≡ true
  unfolding verdict_of
  verdict_of-listed none = refl
  verdict_of-listed (some p) =
      either_listed p.automation_paused _ _ refl (resolve_decision-listed p)

  -- What is left of a recorded decision.
  record Recorded (v : Verdict) (w w' : World) (row : PolicyDecisionRecord) : Type 0 where
    decided : row.decision ≡ v.decision
    rows : w'.policy_decisions ≡ w.policy_decisions ++ row ∷ []

  record_decision-Recorded :
      (v : Verdict) (session_id : String) (s : Subject) (context : Fields) (w : World)
      → policy_decision_repository.admits (decision_row v (some session_id) s context "" "") ≡ true
      → (row : PolicyDecisionRecord) × ((record_decision v (some session_id) s context w).0
          ≡ ok row)
        × Recorded v w (record_decision v (some session_id) s context w).1 row
  unfolding record_decision decision_row announce record_session_event create utc_now new_id pure
      ◌>>=◌
  record_decision-Recorded v session_id s context w fits = (
    decision_row v (some session_id) s context ("pdc_" <> env.hex w.ids_drawn)
        (env.now w.clock_reads),
    rw fits refl,
    record { decided = refl; rows = rw fits refl },
  )

  admitted :
      (v : Verdict) (session_id : String) (s : Subject) (context : Fields)
      → one_of s.subject_type ("approval_gate" ∷ "review_gate" ∷ []) ≡ true
      → one_of s.gate_type ("approval_required" ∷ "review_required" ∷ []) ≡ true
      → one_of v.decision policy_decisions_listed ≡ true
      → policy_decision_repository.admits (decision_row v (some session_id) s context "" "") ≡ true
  unfolding decision_row
  admitted v session_id s context subject gate decision = ground (arith, subject, gate, decision)

  -- For an approval or a review gate the evaluation always returns. The policy that decides is the
  -- first active one, by priority and age, of the session, of its template or of the phase whose
  -- conditions the gate meets; a paused one, like none at all, lets the gate go on. One decision is
  -- recorded, and it is the one returned.
  pub evaluate_policies-verdict_of :
      (session : SessionRecord) (s : Subject) (context : Context) (w : World)
      → one_of s.subject_type ("approval_gate" ∷ "review_gate" ∷ []) ≡ true
      → one_of s.gate_type ("approval_required" ∷ "review_required" ∷ []) ≡ true
      → (r : PolicyEvaluationResult) × ((evaluate_policies session s context w).0 ≡ ok r)
        × (r.verdict
            ≡ verdict_of (
                chosen context (
                  policies_in
                    (some session.id)
                    session.template_key
                    (lookup context "phase_key")
                    false
                    w.policies)))
        × (r.decision_record.decision ≡ r.verdict.decision)
        × ((evaluate_policies session s context w).1.policy_decisions
            ≡ w.policy_decisions ++ r.decision_record ∷ [])
  unfolding evaluate_policies list_policies gets pure ◌>>=◌
  evaluate_policies-verdict_of session s context w subject gate =
      let candidates =
        policies_in (some session.id) session.template_key (lookup context "phase_key") false
          w.policies in
      let verdict = decide_first context candidates in
      let (row, returns, recorded) =
        record_decision-Recorded verdict session.id s (context_fields context) w (
          admitted verdict session.id s (context_fields context) subject gate
            (rw (decide_first-verdict_of context candidates) (verdict_of-listed _))) in
      (
        record { verdict = verdict; decision_record = row; context = context },
        rw returns refl,
        decide_first-verdict_of context candidates,
        recorded.decided,
        rw returns recorded.rows,
      )
