-- ===== src/Coordinator/Decisions.antt =====
-- Approvals that have been decided, through every request.
use codex_collaboration_coor.Common.{
  ℕ, String, ◌<>◌, ◌==◌, eq_iff, Option, none, some, true, false, Bool-cases, inl, inr, List, ◌≡◌,
  refl, sym, ◌∙◌, ap, subst, if◌then◌else◌,
}
use codex_collaboration_coor.Common.Json.{Fields}
use codex_collaboration_coor.Exec.{
  ok, err, ◌>>=◌, conflict_error, lookup_error, some_or_raise, raise,
}
use codex_collaboration_coor.Exec.Keeps.{Keeps, keeps_rules}
use codex_collaboration_coor.Store.{World}
use codex_collaboration_coor.Store.Statuses.{ApprovalStatus, is_pending}
use codex_collaboration_coor.Store.Records.{ApprovalRequestRecord}
use codex_collaboration_coor.Store.Env.{Env}
use codex_collaboration_coor.Store.Table.{get, update}
use codex_collaboration_coor.Store.Table.Rows.{
  find_row, has_row, replace_row, find_row-replace_row, key-find_row,
}
use codex_collaboration_coor.Store.Repositories.{approval_repository}
use codex_collaboration_coor.Store.Keeps.{Frame, Keeps-utc_now}
use codex_collaboration_coor.Approvals.{ApprovalDecision, get_approval, resolve_pending, resolve}
use codex_collaboration_coor.Approvals.Laws.{resolve-Recorded}
use codex_collaboration_coor.Relay.Asking.{
  approvals_frame, execute_job-Keeps, record_relay_edge-sees,
}
use codex_collaboration_coor.Relay.Frame.{Keeps-record_session_event, Keeps-record_job_event}
use codex_collaboration_coor.Coordinator.{Request, serve, Reaches, start, next}
use codex_collaboration_coor.Coordinator.Frame.{Keeps-update_job_for_decision, Keeps-get_job}
use codex_collaboration_coor.Coordinator.Serve.{Keeps-serve}

-- The approval with this id is `a`.
abbrev Stands : String → ApprovalRequestRecord → World → Type 0
Stands id a w = find_row (λ r. r.id) id w.approvals ≡ some a

module _ ⦃env : Env⦄ (id : String) (a : ApprovalRequestRecord) where
  Stands-Frame : Frame (Stands id a)
  Stands-Frame = approvals_frame (λ rs. find_row (λ r. r.id) id rs ≡ some a)

  -- The row of another request does not matter.
  find_row-replace_other :
      (r : ApprovalRequestRecord) (rs : List ApprovalRequestRecord)
      → (r.id == id) ≡ false
      → find_row (λ r. r.id) id (replace_row (λ r. r.id) r rs) ≡ find_row (λ r. r.id) id rs
  find_row-replace_other r rs other = find_row-replace_row (λ r. r.id) r id rs ∙ rw other refl

  Keeps-update_other :
      (r : ApprovalRequestRecord)
      → (r.id == id) ≡ false
      → Keeps (Stands id a) (update approval_repository r)
  unfolding update
  Keeps-update_other r other = record {
    at = λ w h. elim (Bool-cases (has_row (λ r. r.id) r.id w.approvals)) [
      | inr gone ↦ rw gone h
      | inl there ↦ elim (Bool-cases (approval_repository.admits r)) [
        | inr refused ↦ rw (there, refused) h
        | inl admitted ↦ rw (there, admitted) (find_row-replace_other r w.approvals other ∙ h)
      ]
    ];
  }

  Keeps-resolve_other :
      (b : ApprovalRequestRecord) (s : ApprovalStatus) (p : Option Fields)
      → (b.id == id) ≡ false
      → Keeps (Stands id a) (resolve_pending b s p)
  unfolding resolve_pending
  Keeps-resolve_other b s p other =
      search
        (
          keeps_rules,
          Keeps-utc_now Stands-Frame,
          Keeps-update_other,
          other,
          Keeps-get_job Stands-Frame,
          Keeps-update_job_for_decision Stands-Frame,
          Keeps-record_job_event Stands-Frame,
          Keeps-record_session_event Stands-Frame,
        )
        depth 14

  module _ (decided : is_pending a.status ≡ false) where
    -- A pending request that is found is another one.
    pending-other :
        (i : String) (b : ApprovalRequestRecord) (w : World)
        → find_row (λ r. r.id) i w.approvals ≡ some b
        → is_pending b.status ≡ true
        → Stands id a w
        → (b.id == id) ≡ false
    pending-other i b w e undecided h = elim (Bool-cases (b.id == id)) [
      | inr differs ↦ differs
      | inl same ↦
          let is_id = (eq_iff b.id id).0 same in
          let found = key-find_row (λ r. r.id) i w.approvals e in
          absurd (
            cc (
              subst (λ x. find_row (λ r. r.id) x w.approvals ≡ some b) (sym found ∙ is_id) e,
              h,
              decided,
              undecided,
            ))
    ]

    Keeps-resolve_found :
        (i : String) (o : Option ApprovalRequestRecord) (s : ApprovalStatus) (p : Option Fields)
        (w : World)
        → find_row (λ r. r.id) i w.approvals ≡ o
        → Stands id a w
        → Stands id a
            ((some_or_raise (lookup_error ("Approval request not found: " <> i)) o >>= λ b.
                if is_pending b.status
                then resolve_pending b s p
                else raise (conflict_error ("Approval request already resolved: " <> i)))
              w).1
    unfolding ◌>>=◌
    Keeps-resolve_found i none s p w e h = h
    Keeps-resolve_found i (some b) s p w e h = elim (Bool-cases (is_pending b.status)) [
      | inr settled ↦ rw settled h
      | inl undecided ↦
          rw undecided ((Keeps-resolve_other b s p (pending-other i b w e undecided h)).at w h)
    ]

    Keeps-resolve-Stands :
        (i : String) (s : ApprovalStatus) (p : Option Fields) → Keeps (Stands id a) (resolve i s p)
    unfolding resolve get_approval get ◌>>=◌
    Keeps-resolve-Stands i s p = record { at = λ w h. Keeps-resolve_found i _ s p w refl h }

    serve-Keeps :
        (digits : ℕ → String) (n : ℕ) (r : Request) → Keeps (Stands id a) (serve digits n r)
    serve-Keeps digits n r =
        Keeps-serve Stands-Frame digits n (record { at = λ w rs h. h })
          (λ j why.
            execute_job-Keeps Stands-Frame why
              (record_relay_edge-sees Stands-Frame (record { at = λ w rs h. h }) why) digits n j)
          Keeps-resolve-Stands r

-- An approval that has been decided stays as it was decided, whatever requests are served.
pub decided-Reaches :
    ⦃env : Env⦄ (digits : ℕ → String) (n : ℕ) (id : String) (a : ApprovalRequestRecord)
    (w v : World)
    → is_pending a.status ≡ false
    → find_row (λ r. r.id) id w.approvals ≡ some a
    → Reaches digits n w v
    → find_row (λ r. r.id) id v.approvals ≡ some a
decided-Reaches digits n id a w v decided found start = found
decided-Reaches digits n id a w v decided found (next u reached r) =
    (serve-Keeps id a decided digits n r).at u
      (decided-Reaches digits n id a w u decided found reached)

resolve-refused :
    ⦃env : Env⦄ (id : String) (a : ApprovalRequestRecord) (s : ApprovalStatus) (p : Option Fields)
    (v : World)
    → is_pending a.status ≡ false
    → find_row (λ r. r.id) id v.approvals ≡ some a
    → resolve id s p v ≡ (err (conflict_error ("Approval request already resolved: " <> id)), v)
unfolding resolve get_approval get ◌>>=◌
resolve-refused id a s p v decided found = rw (found, decided) refl

-- Once a decision has returned, every later one on the same approval, after whatever requests were
-- served in between, is refused with a conflict and changes nothing.
pub resolve-once :
    ⦃env : Env⦄ (digits : ℕ → String) (n : ℕ) (id : String) (s t : ApprovalStatus)
    (p q : Option Fields) (w v : World) (d : ApprovalDecision)
    → is_pending s ≡ false
    → (resolve id s p w).0 ≡ ok d
    → Reaches digits n (resolve id s p w).1 v
    → resolve id t q v ≡ (err (conflict_error ("Approval request already resolved: " <> id)), v)
resolve-once digits n id s t p q w v d decided returned reached =
    let (found, has_job, is_s, of_job, settled_job) =
      (resolve-Recorded id s p decided).at w tt d returned in
    let settled = ap is_pending is_s ∙ decided in
    resolve-refused id d.approval t q v settled
      (decided-Reaches digits n id d.approval _ v settled found reached)
