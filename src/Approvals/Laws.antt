-- ===== src/Approvals/Laws.antt =====
-- The request and the job of a decision of app/services/approval_manager.py, as the database has them.
use codex_collaboration_coor.Common.{
  String, Option, none, some, Bool, true, false, List, ◌≡◌, refl, inl, inr, Bool-cases, sym, ◌∙◌,
  subst, ap,
}
use codex_collaboration_coor.Common.Json.{Fields}
use codex_collaboration_coor.Exec.{ok, pure, ◌>>=◌}
use codex_collaboration_coor.Exec.Ensures.{
  Ensures, Ensures-pure, Ensures-raise, Ensures-if, Ensures-some, Ensures-kept, Ensures-bind,
}
use codex_collaboration_coor.Store.{World}
use codex_collaboration_coor.Store.Statuses.{
  JobStatus, queued, running, canceled, ApprovalStatus, pending, accepted, declined,
  approval_canceled, is_input_required, is_pending,
}
use codex_collaboration_coor.Store.Records.{JobRecord, ApprovalRequestRecord}
use codex_collaboration_coor.Store.Env.{Env}
use codex_collaboration_coor.Store.Table.{update}
use codex_collaboration_coor.Store.Table.Rows.{find_row, key-find_row}
use codex_collaboration_coor.Store.Repositories.{job_repository, approval_repository}
use codex_collaboration_coor.Store.Ensures.{Has, Ensures-update, Ensures-get}
use codex_collaboration_coor.Events.{record_session_event, record_job_event}
use codex_collaboration_coor.Events.Keeps.{
  Tables, Keeps-utc_now, Keeps-job_event, Keeps-session_event,
}
use codex_collaboration_coor.Approvals.{
  ApprovalDecision, decided_approval, get_approval, get_job, decided_job, update_job_for_decision,
  resolve_pending, resolve,
}

-- What a decision of a request makes of its job.
abbrev pub settles : ApprovalStatus → JobStatus → Bool
settles accepted queued = true
settles accepted running = true
settles declined canceled = true
settles approval_canceled canceled = true
settles _ _ = false

-- A decision as the two tables hold it.
abbrev RecordedIn :
    String
    → ApprovalStatus
    → ApprovalDecision
    → List JobRecord
    → List ApprovalRequestRecord
    → Type 0
RecordedIn id s d jobs approvals =
    (find_row (λ r. r.id) id approvals ≡ some d.approval)
    × (find_row (λ r. r.id) d.job.id jobs ≡ some d.job)
    × (d.approval.status ≡ s)
    × (d.job.id ≡ d.approval.job_id)
    × (settles s d.job.status ≡ true)

abbrev pub Recorded : String → ApprovalStatus → ApprovalDecision → World → Type 0
Recorded id s d = Tables (RecordedIn id s d)

decided_job-id :
    (job : JobRecord) (s : ApprovalStatus) (now : String) → (decided_job job s now).id ≡ job.id
unfolding decided_job
decided_job-id job accepted now = refl
decided_job-id job pending now = refl
decided_job-id job declined now = refl
decided_job-id job approval_canceled now = refl

decided_job-settles :
    (job : JobRecord) (s : ApprovalStatus) (now : String)
    → is_pending s ≡ false
    → settles s (decided_job job s now).status ≡ true
unfolding decided_job
decided_job-settles job accepted now h = elim (Bool-cases (is_input_required job.status)) [
  | inl e ↦ rw e refl
  | inr e ↦ rw e refl
]
decided_job-settles job pending now h = absurd (cc h)
decided_job-settles job declined now h = refl
decided_job-settles job approval_canceled now h = refl

module _ ⦃env : Env⦄ where
  Ensures-get_job :
      {P : World → Type 0} (id : String) → Ensures P (λ job w. (job.id ≡ id) × P w) (get_job id)
  unfolding get_job
  Ensures-get_job id = Ensures-bind _ _ _ (Ensures-get job_repository id) (λ o.
      Ensures-some _ o
        (λ job found w h. (key-find_row (λ r. r.id) id w.jobs (sym (h.0) ∙ found), h.1)))

  Ensures-events :
      (id : String) (job : JobRecord) (s : ApprovalStatus) (d : ApprovalDecision) (e : String)
      (p q : Fields) (now : String)
      → Ensures (Recorded id s d) (Recorded id s) (
          record_job_event job e p now >>= λ _.
          record_session_event job.session_id e (some "system") none q now >>= λ _. pure d)
  Ensures-events id job s d e p q now =
      Ensures-bind (λ _. Recorded id s d) _ _
        (Ensures-kept _ (Keeps-job_event (RecordedIn id s d) job e p now))
        (λ _.
          Ensures-bind (λ _. Recorded id s d) _ _
            (Ensures-kept _ (Keeps-session_event (RecordedIn id s d) _ _ _ _ _ _))
            (λ _. Ensures-pure d (λ w h. h)))

  -- The job row and then the events, once the request is written.
  Ensures-job :
      (id : String) (a : ApprovalRequestRecord) (s : ApprovalStatus) (job : JobRecord) (e : String)
      (p q : Fields) (now : String)
      → is_pending s ≡ false
      → a.id ≡ id
      → a.status ≡ s
      → job.id ≡ a.job_id
      → Ensures (Has approval_repository a) (Recorded id s) (
          update_job_for_decision job s now >>= λ updated_job. record_job_event job e p now >>= λ _.
          record_session_event job.session_id e (some "system") none q now >>= λ _.
          pure (record { approval = a; job = updated_job }))
  unfolding update_job_for_decision
  Ensures-job id a s job e p q now decided is_id is_s is_job =
      Ensures-bind (λ updated. Recorded id s (record { approval = a; job = updated })) _ _
        (record {
          at = λ w h u ok_u.
              let (is_u, has_u, has_a) =
                (Ensures-update job_repository {P = Has approval_repository a}
                    (decided_job job s now) (λ w rs. refl) (record { at = λ w rs h. h })).at
                  w h u ok_u in
              subst
                (λ x.
                  Recorded id s (record { approval = a; job = x })
                    (update job_repository (decided_job job s now) w).1)
                (sym is_u)
                (
                  subst
                      (λ i.
                        find_row (λ r. r.id) i
                          (update job_repository (decided_job job s now) w).1.approvals
                        ≡ some a)
                      is_id has_a,
                  has_u,
                  is_s,
                  decided_job-id job s now ∙ is_job,
                  decided_job-settles job s now decided,
                );
        })
        (λ updated. Ensures-events id job s (record { approval = a; job = updated }) e p q now)

  -- A decision that returns has written the request and its job.
  Ensures-resolve_pending :
      (id : String) (a : ApprovalRequestRecord) (s : ApprovalStatus) (payload : Option Fields)
      → a.id ≡ id
      → is_pending s ≡ false
      → Ensures (λ _. Unit {0}) (Recorded id s) (resolve_pending a s payload)
  unfolding resolve_pending
  Ensures-resolve_pending id a s payload is_id decided =
      Ensures-bind (λ now w. Unit {0}) _ _ (Ensures-kept _ (Keeps-utc_now (λ _ _. Unit {0})))
        (λ now.
          let row = decided_approval a s payload now in
          Ensures-bind (λ saved w. (saved ≡ row) × Has approval_repository row w × Unit {0}) _ _
            (Ensures-update approval_repository row (λ w rs. refl) (record { at = λ w rs h. h }))
            (λ saved.
              Ensures-bind
                (λ (job : JobRecord) w.
                  (job.id ≡ a.job_id) × ((saved ≡ row) × Has approval_repository row w × Unit {0}))
                _ _
                (Ensures-get_job {P = λ w. (saved ≡ row) × Has approval_repository row w × Unit {0}}
                  a.job_id)
                (λ job. record {
                  at = λ w h d e.
                      let (is_job, (is_saved, has_row, u)) = h in
                      (Ensures-job id saved s job _ _ _ now decided
                          (ap (λ r. r.id) is_saved ∙ is_id) (ap (λ r. r.status) is_saved)
                          (is_job ∙ sym (ap (λ r. r.job_id) is_saved))).at
                        w (subst (λ r. Has approval_repository r w) (sym is_saved) has_row) d e;
                })))

  Ensures-get_approval :
      (id : String) → Ensures (λ _. Unit {0}) (λ a w. a.id ≡ id) (get_approval id)
  unfolding get_approval
  Ensures-get_approval id = Ensures-bind _ _ _ (Ensures-get approval_repository id) (λ o.
      Ensures-some _ o (λ a found w h. key-find_row (λ r. r.id) id w.approvals (sym (h.0) ∙ found)))

  -- A decision that returns has written what it returns: the request with the new status, and its
  -- job as that status settles it.
  pub resolve-Recorded :
      (id : String) (s : ApprovalStatus) (payload : Option Fields)
      → is_pending s ≡ false
      → Ensures (λ _. Unit {0}) (Recorded id s) (resolve id s payload)
  unfolding resolve
  resolve-Recorded id s payload decided =
      Ensures-bind (λ a w. a.id ≡ id) _ _ (Ensures-get_approval id)
        (λ a.
          Ensures-if (is_pending a.status) _ _
            (λ undecided. record {
              at =
                  λ w is_id d e. (Ensures-resolve_pending id a s payload is_id decided).at w tt d e;
            })
            (λ settled. Ensures-raise _))

-- A decision that returns has written what it returns: the request with the new status under its id,
-- and the request's job, which is queued or running where the request was accepted and canceled where
-- it was not.
pub resolve-tables :
    ⦃env : Env⦄ (id : String) (s : ApprovalStatus) (payload : Option Fields) (w : World)
    (d : ApprovalDecision)
    → is_pending s ≡ false
    → (resolve id s payload w).0 ≡ ok d
    → Recorded id s d (resolve id s payload w).1
resolve-tables id s payload w d decided returned =
    (resolve-Recorded id s payload decided).at w tt d returned
